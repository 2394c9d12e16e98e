-- ===== src/Apply/Range.antt =====
-- The entries of a batch that are behind an index, and the slice by which applyEntries takes them.
use mathlib.Core.Path.{subst}
use kingbus.Common.{
  ℕ, suc, ◌+◌, ◌-◌, ◌%◌, ◌^◌, ◌≤◌, ◌<◌, ◌≡◌, refl, sym, false, List, [], ◌∷◌, length, drop,
  drop_nil, ltb, if◌then◌else◌, arith, Bool-cases, inl, inr,
}
use kingbus.Storage.Env.{Entry}
use kingbus.Apply.Entries.{to_apply}

-- Entries at consecutive raft indexes from one, below 2 ^ 64 - 1.
abbrev pub IsRun : ℕ → List Entry → Type 0
IsRun i [] = Unit
IsRun i (e ∷ es) = (e.index ≡ i) × ((i + 1 < 2 ^ 64) × IsRun (i + 1) es)

-- The entries behind an index.
abbrev pub newer : ℕ → List Entry → List Entry
newer k [] = []
newer k (e ∷ es) = let rest = newer k es in if ltb k e.index then e ∷ rest else rest

abbrev pub last_index_of : ℕ → List Entry → ℕ
last_index_of k [] = k
last_index_of k (e ∷ es) = last_index_of e.index es

pub ltb-ge : (a c : ℕ) → c ≤ a → ltb a c ≡ false
ltb-ge a c le = ground (arith, le)

pub newer_all : (k i : ℕ) (es : List Entry) → k < i → IsRun i es → newer k es ≡ es
newer_all k i [] lt run = refl
newer_all k i (e ∷ es) lt (at, (bound, run)) =
    ground (arith, at, newer_all k (i + 1) es (omega arith) run)

pub drop-newer :
    (k i : ℕ) (es : List Entry) → i ≤ k + 1 → IsRun i es → drop (k + 1 - i) es ≡ newer k es
drop-newer k i [] le run = drop_nil (k + 1 - i)
drop-newer k i (e ∷ es) le (at, (bound, run)) = elim (Bool-cases (ltb k i)) [
  | inl behind ↦
      subst (λ n. drop n (e ∷ es) ≡ newer k (e ∷ es)) {x = 0} (ground (arith, behind))
        (ground (arith, at, behind, newer_all k (i + 1) es (ground (arith, behind)) run))
  | inr inside ↦
      subst (λ n. drop n (e ∷ es) ≡ newer k (e ∷ es)) {x = suc (k + 1 - (i + 1))}
        (ground (arith, inside))
        (ground (arith, at, inside, drop-newer k (i + 1) es (ground (arith, inside)) run))
]

pub length_run : (k i : ℕ) (es : List Entry) → IsRun i es → i + length es ≤ k + 1 → newer k es ≡ []
length_run k i [] run le = refl
length_run k i (e ∷ es) (at, (bound, run)) le = ground (arith, at, length_run k (i + 1) es run)

pub offset :
    (first applied : ℕ)
    → first ≤ applied + 1
    → applied + 1 < 2 ^ 64
    → ((applied + 1) % 2 ^ 64 + 2 ^ 64 - first) % 2 ^ 64 ≡ applied + 1 - first
offset first applied le bound = omega (arith, le, bound)

pub to_apply_lem :
    (first applied : ℕ) (es : List Entry)
    → first ≤ applied + 1
    → applied + 1 < 2 ^ 64
    → IsRun first es
    → to_apply es first applied ≡ newer applied es
unfolding to_apply
to_apply_lem first applied es le bound run =
    elim (Bool-cases (ltb (applied + 1 - first) (length es))) [
      | inl inside ↦ rw (offset first applied le bound, inside) (drop-newer applied first es le run)
      | inr outside ↦
          rw (offset first applied le bound, outside)
            (sym (length_run applied first es run (ground (arith, le, outside))))
    ]

pub last_run : (j : ℕ) (es : List Entry) → IsRun (j + 1) es → last_index_of j es ≡ j + length es
last_run j [] run = omega arith
last_run j (e ∷ es) (at, (bound, run)) = ground (arith, at, last_run e.index es (rw at run))

pub last-reaches :
    (k i : ℕ) (es : List Entry)
    → i ≤ k + 1
    → IsRun i es
    → i + length es ≤ last_index_of k (newer k es) + 1
last-reaches k i [] le run = omega (arith, le)
last-reaches k i (e ∷ es) le (at, (bound, run)) = elim (Bool-cases (ltb k i)) [
  | inl behind ↦
      rw (at, behind, newer_all k (i + 1) es (ground (arith, behind)) run)
        (omega (arith, last_run i es run))
  | inr inside ↦ ground (arith, at, inside, last-reaches k (i + 1) es (ground (arith, inside)) run)
]

pub last-bounded :
    (j k i : ℕ) (es : List Entry)
    → j + 1 < 2 ^ 64
    → IsRun i es
    → last_index_of j (newer k es) + 1 < 2 ^ 64
last-bounded j k i [] lt run = lt
last-bounded j k i (e ∷ es) lt (at, (bound, run)) = ground (
  arith,
  at,
  last-bounded e.index k (i + 1) es (rw at bound) run,
  last-bounded j k (i + 1) es lt run,
)

-- Behind the last of the newer entries there is none.
pub newer_none :
    (k i : ℕ) (es : List Entry)
    → i ≤ k + 1
    → IsRun i es
    → newer (last_index_of k (newer k es)) es ≡ []
newer_none k i es le run =
    length_run (last_index_of k (newer k es)) i es run (last-reaches k i es le run)
