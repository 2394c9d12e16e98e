-- ===== src/MetaStore/Reads.antt =====
-- What the searches over the ordered keys of the metadata store find.
use kingbus.Common.{
  ℕ, ◌≡◌, refl, false, Option, none, some, List, [], ◌∷◌, length, ltb, ◌==◌, arith, Bool-cases, inl,
  inr, ◌≢◌, if◌then◌else◌, not_contain, ok, err,
}
use kingbus.Store.{fde, pre_gtids}
use kingbus.Bolt.{Bolt, IsBolt, Above, Ascending}
use kingbus.Gtids.{Gtids, IsGtids}
use kingbus.MetaStore.{fde_before, get_fde}
use kingbus.MetaStore.Gtid.{decode_set, last_contained, get_previous_gtid_set}

-- The entries whose index is before one.
abbrev pub before {ℓ} : {V : Type ℓ} → ℕ → List (ℕ × V) → List (ℕ × V)
before k [] = []
before k ((i, v) ∷ l) = let rest = before k l in if ltb i k then (i, v) ∷ rest else rest

-- The last value, or another where there is none.
abbrev pub last_value {ℓ} : {V : Type ℓ} → V → List (ℕ × V) → V
last_value w [] = w
last_value w ((i, v) ∷ l) = last_value v l

before_none :
    {V : Type 0} (k i : ℕ) (l : List (ℕ × V)) → ltb i k ≡ false → Above i l → before k l ≡ []
before_none k i [] h a = refl
before_none k i ((j, v) ∷ l) h (lt, a) = ground (arith, before_none k i l h a)

fde_before_lem :
    (pre : ℕ) (w : List ℕ) (l : List (ℕ × List ℕ))
    → Ascending l
    → fde_before pre w l ≡ last_value w (before pre l)
unfolding fde_before
fde_before_lem pre w [] a = refl
fde_before_lem pre w ((i, v) ∷ l) (above, a) = elim (Bool-cases (ltb i pre)) [
  | inl lt ↦ ground (arith, fde_before_lem pre v l a)
  | inr ge ↦ ground (arith, before_none pre i l ge above)
]

-- The reference: the last of all the values whose index is before the given one.
pub get_fde_lem :
    {D : Type 0} (b : Bolt D) (d : D) (l : List (ℕ × List ℕ)) (pre : ℕ)
    → IsBolt b
    → b.scan d fde ≡ ok l
    → get_fde b pre d ≡ (
        let found = last_value [] (before pre l) in
        if length found == 0 then err not_contain else ok found)
unfolding get_fde
get_fde_lem b d l pre is_bolt h =
    rw (h, fde_before_lem pre [] l (is_bolt.scan-Ascending fde d l h)) refl

-- The values of the keys with the previous gtids are encoded sets.
abbrev pub stored : {G U : Type 0} → Gtids G U → List (ℕ × G) → List (ℕ × List ℕ)
stored g [] = []
stored g ((i, x) ∷ xs) = (i, g.encode x) ∷ stored g xs

module _ {G U : Type 0} (g : Gtids G U) where
  pub decode_set-encode : (x : G) → IsGtids g → decode_set g (g.encode x) ≡ ok x
  unfolding decode_set
  decode_set-encode x laws = ground (arith, laws.round_trip x)

  -- The sets that a slave's set contains.
  abbrev pub contained_in : G → List (ℕ × G) → List (ℕ × G)
  contained_in slave [] = []
  contained_in slave ((i, x) ∷ xs) =
      let rest = contained_in slave xs in if g.contain slave x then (i, x) ∷ rest else rest

  abbrev pub last_index_of : Option ℕ → List (ℕ × G) → Option ℕ
  last_index_of k [] = k
  last_index_of k ((i, x) ∷ xs) = last_index_of (some i) xs

  last_contained_lem :
      (slave : G) (found : Option ℕ) (xs : List (ℕ × G))
      → IsGtids g
      → length (g.sets slave) ≢ 0
      → last_contained g slave found (stored g xs)
        ≡ ok (last_index_of found (contained_in slave xs))
  unfolding last_contained
  last_contained_lem slave found [] laws ne = refl
  last_contained_lem slave found ((i, x) ∷ xs) laws ne = rw (decode_set-encode x laws) (
      ground (
        arith,
        ne,
        last_contained_lem slave (some i) xs laws ne,
        last_contained_lem slave found xs laws ne,
      ))

  abbrev first_index_of : List (ℕ × G) → Option ℕ
  first_index_of [] = none
  first_index_of ((i, x) ∷ xs) = some i

  -- The reference: a slave without sets starts at the first file, another at the last one whose
  -- previous sets it has.
  abbrev pub start_of : G → List (ℕ × G) → Option ℕ
  start_of slave xs =
      if length (g.sets slave) == 0
      then first_index_of xs
      else last_index_of none (contained_in slave xs)

  last_contained-empty :
      (slave : G) (xs : List (ℕ × G))
      → IsGtids g
      → length (g.sets slave) ≡ 0
      → last_contained g slave none (stored g xs) ≡ ok (first_index_of xs)
  unfolding last_contained
  last_contained-empty slave [] laws e = refl
  last_contained-empty slave ((i, x) ∷ xs) laws e =
      rw (decode_set-encode x laws) (ground (arith, e))

  last_contained-start :
      (slave : G) (xs : List (ℕ × G))
      → IsGtids g
      → last_contained g slave none (stored g xs) ≡ ok (start_of slave xs)
  last_contained-start slave xs laws = elim (Bool-cases (length (g.sets slave) == 0)) [
    | inl none_yet ↦
        ground (arith, none_yet, last_contained-empty slave xs laws (ground (arith, none_yet)))
    | inr some_yet ↦
        ground (arith, some_yet, last_contained_lem slave none xs laws (ground (arith, some_yet)))
  ]

  pub get_previous_gtid_set_lem :
      {D : Type 0} (b : Bolt D) (d : D) (slave : G) (xs : List (ℕ × G))
      → IsGtids g
      → b.scan d pre_gtids ≡ ok (stored g xs)
      → get_previous_gtid_set b g slave d
        ≡ elim (start_of slave xs) [ none ↦ err not_contain | some i ↦ ok i ]
  unfolding get_previous_gtid_set
  get_previous_gtid_set_lem b d slave xs laws h = rw (h, last_contained-start slave xs laws) refl
