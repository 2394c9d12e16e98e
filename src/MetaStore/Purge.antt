-- ===== src/MetaStore/Purge.antt =====
-- UpdatePugedGtidset and SetPreviousGtidSet: which previous gtid sets the store keeps.
use mathlib.Core.Logic.{ite, if_pos, if_neg}
use kingbus.Common.{
  ℕ, ◌≡◌, refl, ap, ◌∙◌, false, Option, none, some, List, [], ◌∷◌, length, ltb, ◌==◌, arith,
  Bool-cases, inl, inr, if◌then◌else◌, Result, ok, ◌>>=◌, erase,
}
use kingbus.Store.{Prefix-discrete, pre_gtids, StoreKey, StoreKey-discrete, gtid_purged, at}
use kingbus.Bolt.{Bolt, IsBolt, Above, Ascending, put_value, value_after, scan_after}
use kingbus.Gtids.{Gtids, IsGtids}
use kingbus.MetaStore.{get_value, set_value}
use kingbus.MetaStore.Gtid.{
  set_or_empty, get_gtid_set, first_behind, purge_up_to, update_puged_gtidset, set_gtid_set,
  delete_previous_gtid_set, deletes_before, fatal,
}
use kingbus.MetaStore.Reads.{stored, decode_set-encode}
use kingbus.MetaStore.Writes.{transact_lem, value-put}

-- The entries that are not before an index.
abbrev pub from {ℓ} : {V : Type ℓ} → ℕ → List (ℕ × V) → List (ℕ × V)
from k [] = []
from k ((i, v) ∷ l) = let rest = from k l in if ltb i k then rest else (i, v) ∷ rest

erase-Above : {V : Type 0} (i : ℕ) (l : List (ℕ × V)) → Above i l → erase i l ≡ l
erase-Above i [] a = refl
erase-Above i ((j, v) ∷ l) (lt, a) = ground (arith, erase-Above i l a)

erase_head :
    (i : ℕ) (v : List ℕ) (l : List (ℕ × List ℕ))
    → Above i l
    → ite (Prefix-discrete pre_gtids pre_gtids) (erase i ((i, v) ∷ l)) ((i, v) ∷ l) ≡ l
erase_head i v l a =
    if_pos (Prefix-discrete pre_gtids pre_gtids) refl (erase i ((i, v) ∷ l)) ((i, v) ∷ l)
    ∙ ground (arith, erase-Above i l a)

from_all : {V : Type 0} (k i : ℕ) (l : List (ℕ × V)) → ltb i k ≡ false → Above i l → from k l ≡ l
from_all k i [] h a = refl
from_all k i ((j, v) ∷ l) h (lt, a) = ground (arith, from_all k i l h a)

deletes_none :
    (k i : ℕ) (l : List (ℕ × List ℕ)) → ltb i k ≡ false → Above i l → deletes_before k l ≡ []
unfolding deletes_before
deletes_none k i [] h a = refl
deletes_none k i ((j, v) ∷ l) h (lt, a) = ground (arith, deletes_none k i l h a)

scan_after-deletes :
    (k : ℕ) (l : List (ℕ × List ℕ))
    → Ascending l
    → scan_after pre_gtids (deletes_before k l) l ≡ from k l
unfolding deletes_before
scan_after-deletes k [] a = refl
scan_after-deletes k ((i, v) ∷ l) (above, a) = elim (Bool-cases (ltb i k)) [
  | inl lt ↦ rw lt (
      ap (scan_after pre_gtids (deletes_before k l)) (erase_head i v l above)
      ∙ scan_after-deletes k l a)
  | inr ge ↦ rw (ge, deletes_none k i l ge above, from_all k i l ge above) refl
]

module _ {D G U : Type 0} (b : Bolt D) (g : Gtids G U) (laws : IsBolt b)
    (set_laws : IsGtids g) where
  from-stored : (k : ℕ) (xs : List (ℕ × G)) → from k (stored g xs) ≡ stored g (from k xs)
  from-stored k [] = refl
  from-stored k ((i, x) ∷ xs) = ground (arith, from-stored k xs)

  delete_previous_gtid_set_lem :
      (first : ℕ) (xs : List (ℕ × G)) (d e : D)
      → b.scan d pre_gtids ≡ ok (stored g xs)
      → b.update (deletes_before first (stored g xs)) d ≡ some e
      → (delete_previous_gtid_set b g first d ≡ (ok tt, e))
        × (b.scan e pre_gtids ≡ ok (stored g (from first xs)))
  unfolding delete_previous_gtid_set
  delete_previous_gtid_set_lem first xs d e h u = (
    transact_lem b (λ d. b.scan d pre_gtids >>= λ l. ok (deletes_before first l))
        (deletes_before first (stored g xs)) d e (rw h refl) u,
    laws.scan-update pre_gtids (deletes_before first (stored g xs)) d e (stored g xs) u h
        ∙ ap ok (
            scan_after-deletes first (stored g xs) (laws.scan-Ascending pre_gtids d (stored g xs) h)
            ∙ from-stored first xs),
  )

  value_after-deletes :
      (k : ℕ) (l : List (ℕ × List ℕ)) (r : Result (Option (List ℕ)))
      → value_after gtid_purged (deletes_before k l) r ≡ r
  unfolding deletes_before
  value_after-deletes k [] r = refl
  value_after-deletes k ((i, v) ∷ l) r = elim (Bool-cases (ltb i k)) [
    | inl lt ↦ rw lt (
        ap (value_after gtid_purged (deletes_before k l))
          (if_neg (StoreKey-discrete (at pre_gtids i) gtid_purged) (λ e. cc) (ok none) r)
        ∙ value_after-deletes k l r)
    | inr ge ↦ rw ge (value_after-deletes k l r)
  ]

  -- The set that is purged, in the database that the two transactions leave.
  purged_set :
      (first : ℕ) (l : List (ℕ × List ℕ)) (q : G) (d e f : D)
      → b.update (put_value gtid_purged (g.encode q) ∷ []) d ≡ some e
      → b.update (deletes_before first l) e ≡ some f
      → get_gtid_set b g gtid_purged f ≡ ok q
  unfolding get_gtid_set get_value set_or_empty
  purged_set first l q d e f u w =
      rw
        (
          laws.value-update gtid_purged (deletes_before first l) e f w,
          value_after-deletes first l (b.value e gtid_purged),
          value-put b gtid_purged (g.encode q) [] d e laws refl u,
        )
        (decode_set-encode g q set_laws)

  set_gtid_set_lem :
      (k : StoreKey) (q : G) (d e : D)
      → b.update (put_value k (g.encode q) ∷ []) d ≡ some e
      → set_gtid_set b g k q d ≡ (ok tt, e)
  unfolding set_gtid_set set_value
  set_gtid_set_lem k q d e u =
      transact_lem b (λ d. ok (put_value k (g.encode q) ∷ [])) (put_value k (g.encode q) ∷ []) d e
        refl u

  -- The first set behind an index.
  abbrev pub next_set : ℕ → List (ℕ × G) → Option G
  next_set k [] = none
  next_set k ((i, x) ∷ xs) = let rest = next_set k xs in if ltb k i then some x else rest

  first_behind-stored :
      (k : ℕ) (xs : List (ℕ × G)) → first_behind g k (stored g xs) ≡ ok (next_set k xs)
  unfolding first_behind
  first_behind-stored k [] = refl
  first_behind-stored k ((i, x) ∷ xs) =
      rw (decode_set-encode g x set_laws) (ground (arith, first_behind-stored k xs))

  pub update_puged_gtidset-none :
      (first : ℕ) (xs : List (ℕ × G)) (d : D)
      → b.scan d pre_gtids ≡ ok (stored g xs)
      → next_set first xs ≡ none
      → update_puged_gtidset b g first d ≡ (ok tt, d)
  unfolding update_puged_gtidset purge_up_to
  update_puged_gtidset-none first xs d h n = rw (h, first_behind-stored first xs, n) refl

  pub update_puged_gtidset_lem :
      (first : ℕ) (xs : List (ℕ × G)) (x p q : G) (d e f : D)
      → b.scan d pre_gtids ≡ ok (stored g xs)
      → next_set first xs ≡ some x
      → (length (g.to_string x) == 0) ≡ false
      → get_gtid_set b g gtid_purged d ≡ ok p
      → g.update (g.to_string x) p ≡ some q
      → b.update (put_value gtid_purged (g.encode q) ∷ []) d ≡ some e
      → b.update (deletes_before first (stored g xs)) e ≡ some f
      → (update_puged_gtidset b g first d ≡ (ok tt, f))
        × ((get_gtid_set b g gtid_purged f ≡ ok q)
            × (b.scan f pre_gtids ≡ ok (stored g (from first xs))))
  unfolding update_puged_gtidset purge_up_to fatal
  update_puged_gtidset_lem first xs x p q d e f h n some_text hp hq u w =
      let same =
        laws.scan-update pre_gtids (put_value gtid_purged (g.encode q) ∷ []) d e (stored g xs) u
          h in
      let (run, rest) = delete_previous_gtid_set_lem first xs e f same w in
      (
        rw
            (
              h,
              first_behind-stored first xs,
              n,
              some_text,
              hp,
              hq,
              set_gtid_set_lem gtid_purged q d e u,
            )
            run,
        (purged_set first (stored g xs) q d e f u w, rest),
      )
