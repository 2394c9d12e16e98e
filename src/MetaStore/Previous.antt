-- ===== src/MetaStore/Previous.antt =====
-- SetPreviousGtidSet of storage/meta_storage.go, which keeps a set of previous gtids once.
use mathlib.Core.Logic.{if_pos}
use kingbus.Common.{
  ℕ, ◌≡◌, refl, sym, ap, ◌∙◌, Bool, true, false, ◌||◌, List, [], ◌∷◌, some, arith, Bool-cases, inl,
  inr, if◌then◌else◌, ok, ◌>>=◌,
}
use kingbus.Store.{Prefix-discrete, pre_gtids, at}
use kingbus.Bolt.{Bolt, IsBolt, Write, put_value, insert_sorted, scan_after}
use kingbus.Gtids.{Gtids, IsGtids}
use kingbus.MetaStore.Gtid.{set_previous_gtid_set, exists_equal}
use kingbus.MetaStore.Reads.{stored, decode_set-encode}
use kingbus.MetaStore.Writes.{transact_lem}

module _ {G U : Type 0} (g : Gtids G U) where
  abbrev pub has_equal : G → List (ℕ × G) → Bool
  has_equal x [] = false
  has_equal x ((i, y) ∷ ys) = g.equal y x || has_equal x ys

  exists_equal-stored :
      (x : G) (xs : List (ℕ × G)) → IsGtids g → exists_equal g x (stored g xs) ≡ ok (has_equal x xs)
  unfolding exists_equal
  exists_equal-stored x [] laws = refl
  exists_equal-stored x ((i, y) ∷ ys) laws =
      rw (decode_set-encode g y laws) (ground (arith, exists_equal-stored x ys laws))

  insert-stored :
      (i : ℕ) (x : G) (xs : List (ℕ × G))
      → insert_sorted i (g.encode x) (stored g xs) ≡ stored g (insert_sorted i x xs)
  insert-stored i x [] = refl
  insert-stored i x ((j, y) ∷ ys) = ground (arith, insert-stored i x ys)

  has_equal-insert :
      (i : ℕ) (x : G) (xs : List (ℕ × G)) → IsGtids g → has_equal x (insert_sorted i x xs) ≡ true
  has_equal-insert i x [] laws = ground (arith, laws.equal_refl x)
  has_equal-insert i x ((j, y) ∷ ys) laws =
      ground (arith, laws.equal_refl x, has_equal-insert i x ys laws)

  -- The sets that are kept afterwards.
  abbrev pub with_set : ℕ → G → List (ℕ × G) → List (ℕ × G)
  with_set i x xs = if has_equal x xs then xs else insert_sorted i x xs

  abbrev pub set_writes : ℕ → G → List (ℕ × G) → List Write
  set_writes i x xs = if has_equal x xs then [] else put_value (at pre_gtids i) (g.encode x) ∷ []

  pub has_equal-with_set :
      (i : ℕ) (x : G) (xs : List (ℕ × G)) → IsGtids g → has_equal x (with_set i x xs) ≡ true
  has_equal-with_set i x xs laws = elim (Bool-cases (has_equal x xs)) [
    | inl there ↦ rw there there
    | inr absent ↦ rw absent (has_equal-insert i x xs laws)
  ]

  scan_after-set :
      (i : ℕ) (x : G) (xs : List (ℕ × G))
      → scan_after pre_gtids (set_writes i x xs) (stored g xs) ≡ stored g (with_set i x xs)
  scan_after-set i x xs = elim (Bool-cases (has_equal x xs)) [
    | inl there ↦ rw there refl
    | inr absent ↦ rw absent (
        if_pos (Prefix-discrete pre_gtids pre_gtids) refl
          (insert_sorted i (g.encode x) (stored g xs)) (stored g xs)
        ∙ insert-stored i x xs)
  ]

module _ {D G U : Type 0} (b : Bolt D) (g : Gtids G U) (laws : IsBolt b)
    (set_laws : IsGtids g) where
  pub set_previous_gtid_set_lem :
      (i : ℕ) (x : G) (xs : List (ℕ × G)) (d e : D)
      → b.scan d pre_gtids ≡ ok (stored g xs)
      → b.update (set_writes g i x xs) d ≡ some e
      → (set_previous_gtid_set b g i x d ≡ (ok tt, e))
        × (b.scan e pre_gtids ≡ ok (stored g (with_set g i x xs)))
  unfolding set_previous_gtid_set
  set_previous_gtid_set_lem i x xs d e h u = (
    transact_lem b
        (λ d. b.scan d pre_gtids >>= λ l. exists_equal g x l >>= λ exist.
          ok (if exist then [] else put_value (at pre_gtids i) (g.encode x) ∷ []))
        (set_writes g i x xs) d e (rw (h, exists_equal-stored g x xs set_laws) refl) u,
    laws.scan-update pre_gtids (set_writes g i x xs) d e (stored g xs) u h
        ∙ ap ok (scan_after-set g i x xs),
  )

  -- The same event again, at another index, changes no previous gtid set.
  pub set_previous_gtid_set-again :
      (i j : ℕ) (x : G) (xs : List (ℕ × G)) (d e f : D)
      → b.scan d pre_gtids ≡ ok (stored g xs)
      → b.update (set_writes g i x xs) d ≡ some e
      → b.update [] e ≡ some f
      → (set_previous_gtid_set b g i x d ≡ (ok tt, e))
        × ((set_previous_gtid_set b g j x e ≡ (ok tt, f))
            × (b.scan f pre_gtids ≡ b.scan e pre_gtids))
  set_previous_gtid_set-again i j x xs d e f h u w =
      let (run, kept) = set_previous_gtid_set_lem i x xs d e h u in
      let there = has_equal-with_set g i x xs set_laws in
      let (again, same) = set_previous_gtid_set_lem j x (with_set g i x xs) e f kept (rw there w) in
      (
        run,
        (again, laws.scan-update pre_gtids [] e f (stored g (with_set g i x xs)) w kept ∙ sym kept),
      )
