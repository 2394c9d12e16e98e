-- ===== src/MetaStore/Writes.antt =====
-- What the transactions of the metadata store leave in the database.
use mathlib.Core.Logic.{if_pos, if_neg}
use kingbus.Common.{
  ℕ, ◌≡◌, ◌≢◌, refl, sym, ap, ◌∙◌, Option, none, some, List, [], ◌∷◌, arith, inl, inr, ◌⊎◌, Result,
  ok, err, os_error,
}
use kingbus.Store.{IsStore, StoreKey, StoreKey-discrete, executed_gtids, apply_index}
use kingbus.Bolt.{Bolt, IsBolt, Write, put_value, value_after}
use kingbus.Gtids.{Gtids, IsGtids}
use kingbus.MetaStore.{meta_store, get_value, transact}
use kingbus.MetaStore.Gtid.{big_endian, set_binlog_progress, set_or_empty, get_gtid_set}
use kingbus.MetaStore.Reads.{decode_set-encode}

module _ {D : Type 0} (b : Bolt D) where
  pub transact_lem :
      (f : D → Result (List Write)) (ws : List Write) (d e : D)
      → f d ≡ ok ws
      → b.update ws d ≡ some e
      → transact b f d ≡ (ok tt, e)
  unfolding transact
  transact_lem f ws d e h u = ground (arith, h, u)

  transact-fails :
      (f : D → Result (List Write)) (ws : List Write) (d : D)
      → f d ≡ ok ws
      → b.update ws d ≡ none
      → transact b f d ≡ (err os_error, d)
  unfolding transact
  transact-fails f ws d h u = ground (arith, h, u)

  -- A value that is written alone, or last, is read back.
  pub value-put :
      (k : StoreKey) (v : List ℕ) (ws : List Write) (d e : D)
      → IsBolt b
      → value_after k ws (ok (some v)) ≡ ok (some v)
      → b.update (put_value k v ∷ ws) d ≡ some e
      → b.value e k ≡ ok (some v)
  value-put k v ws d e laws last h =
      laws.value-update k (put_value k v ∷ ws) d e h
      ∙ ap (value_after k ws) (if_pos (StoreKey-discrete k k) refl (ok (some v)) (b.value d k))
      ∙ last

  pub value-put_ne :
      (j k : StoreKey) (v : List ℕ) (ws : List Write) (d e : D)
      → IsBolt b
      → k ≢ j
      → b.update (put_value k v ∷ ws) d ≡ some e
      → b.value e j ≡ value_after j ws (b.value d j)
  value-put_ne j k v ws d e laws ne h =
      laws.value-update j (put_value k v ∷ ws) d e h
      ∙ ap (value_after j ws) (if_neg (StoreKey-discrete k j) ne (ok (some v)) (b.value d j))

  pub meta_store-IsStore : IsBolt b → IsStore (meta_store b)
  unfolding meta_store get_value
  meta_store-IsStore laws = record {
    get-set = λ k v s t h. value-put k v [] s t laws refl h;
    get-set_ne = λ j k v s t h ne. value-put_ne j k v [] s t laws (λ e. ne (sym e)) h;
  }

module _ {D G U : Type 0} (b : Bolt D) (g : Gtids G U) where
  -- The two writes of SetBinlogProgress.
  abbrev progress_writes : ℕ → G → List Write
  progress_writes applied x =
      put_value executed_gtids (g.encode x) ∷ put_value apply_index (big_endian 8 applied) ∷ []

  set_binlog_progress-ok :
      (applied : ℕ) (x : G) (d e : D)
      → IsBolt b
      → IsGtids g
      → b.update (progress_writes applied x) d ≡ some e
      → (get_gtid_set b g executed_gtids e ≡ ok x)
        × (b.value e apply_index ≡ ok (some (big_endian 8 applied)))
  unfolding get_gtid_set get_value set_or_empty
  set_binlog_progress-ok applied x d e laws set_laws h = (
    rw
        (value-put b executed_gtids (g.encode x) (put_value apply_index (big_endian 8 applied) ∷ [])
          d e laws
          (if_neg (StoreKey-discrete apply_index executed_gtids) (λ e. cc)
            (ok (some (big_endian 8 applied))) (ok (some (g.encode x))))
          h)
        (decode_set-encode g x set_laws),
    value-put_ne b apply_index executed_gtids (g.encode x)
          (put_value apply_index (big_endian 8 applied) ∷ []) d e laws (λ e. cc) h
        ∙ if_pos (StoreKey-discrete apply_index apply_index) refl (ok (some (big_endian 8 applied)))
            (b.value d apply_index),
  )

  -- Where the transaction fails, nothing is written; else both values are.
  progress_cases :
      (o : Option D) (applied : ℕ) (x : G) (d : D)
      → IsBolt b
      → IsGtids g
      → b.update (progress_writes applied x) d ≡ o
      → (set_binlog_progress b g applied x d ≡ (err os_error, d))
        ⊎ ((e : D) × ((set_binlog_progress b g applied x d ≡ (ok tt, e))
              × ((get_gtid_set b g executed_gtids e ≡ ok x)
                  × (b.value e apply_index ≡ ok (some (big_endian 8 applied))))))
  unfolding set_binlog_progress
  progress_cases none applied x d laws set_laws h =
      inl (
        transact-fails b (λ d. ok (progress_writes applied x)) (progress_writes applied x) d refl h)
  progress_cases (some e) applied x d laws set_laws h = inr (
    e,
    (
      transact_lem b (λ d. ok (progress_writes applied x)) (progress_writes applied x) d e refl h,
      set_binlog_progress-ok applied x d e laws set_laws h,
    ),
  )

  pub set_binlog_progress_lem :
      (applied : ℕ) (x : G) (d : D)
      → IsBolt b
      → IsGtids g
      → (set_binlog_progress b g applied x d ≡ (err os_error, d))
        ⊎ ((e : D) × ((set_binlog_progress b g applied x d ≡ (ok tt, e))
              × ((get_gtid_set b g executed_gtids e ≡ ok x)
                  × (b.value e apply_index ≡ ok (some (big_endian 8 applied))))))
  set_binlog_progress_lem applied x d laws set_laws =
      progress_cases (b.update (progress_writes applied x) d) applied x d laws set_laws refl
