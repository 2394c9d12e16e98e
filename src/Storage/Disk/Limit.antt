-- ===== src/Storage/Disk/Limit.antt =====
-- How a read of the log is cut at its size limit.
use mathlib.Core.Path.{subst}
use kingbus.Common.{
  ℕ, suc, ◌+◌, ◌%◌, ◌^◌, ◌≤◌, ◌<◌, ◌≡◌, ◌⊎◌, inl, inr, refl, ap, ◌∙◌, true, false, List, [], ◌∷◌,
  ◌++◌, arith, ok, length, ltb, ltb→lt, Bool-cases, ==_iff,
}
use native.Mathlib.Nat.{mod-eq_of_lt}
use kingbus.Storage.Env.{Entry}
use kingbus.Storage.Segment.Represents.{Consecutive}
use kingbus.Storage.Disk.{cut_after, continuous, cut_raft_entries}

-- The bytes of data of the entries.
unfoldable pub total : List Entry → ℕ
total [] = 0
total (e ∷ es) = length e.payload + total es

-- With `size` bytes taken, the next entry would pass the limit; or there is none.
abbrev pub Full : ℕ → ℕ → List Entry → Type 0
Full limit size [] = Unit
Full limit size (e ∷ es) = limit < size + length e.payload

taken :
    (limit size : ℕ) (e : Entry) (kept : List Entry)
    → ltb limit (size + length e.payload) ≡ false
    → (kept ≡ []) ⊎ (size + length e.payload + total kept ≤ limit)
    → size + (length e.payload + total kept) ≤ limit
unfolding total
taken limit size e kept h (inl q) = ground (arith, ap total q)
taken limit size e kept h (inr b) = omega arith

cut_after_lem :
    (limit size : ℕ) (es : List Entry)
    → (kept : List Entry) × (rest : List Entry) × (cut_after limit size es ≡ kept)
      × (es ≡ kept ++ rest)
      × ((kept ≡ []) ⊎ (size + total kept ≤ limit))
      × Full limit (size + total kept) rest
unfolding cut_after total
cut_after_lem limit size [] = ([], [], refl, refl, inl refl, tt)
cut_after_lem limit size (e ∷ es) =
    let (kept, rest, cuts, parts, fits, full) = cut_after_lem limit (size + length e.payload) es in
    elim (Bool-cases (ltb limit (size + length e.payload))) [
      | inl over ↦ ([], e ∷ es, rw over, refl, inl refl, omega (arith, ltb→lt _ _ over))
      | inr under ↦ (
        e ∷ kept,
        rest,
        rw under (ap (λ l. e ∷ l) cuts),
        ap (λ l. e ∷ l) parts,
        inr (taken limit size e kept under fits),
        subst (λ n. Full limit n rest) {x = size + length e.payload + total kept}
            {y = size + (length e.payload + total kept)} (omega arith) full,
      )
    ]

pub continuous_lem :
    (i : ℕ) (es : List Entry) → Consecutive i es → i + length es ≤ 2 ^ 64 → continuous es ≡ true
unfolding continuous
continuous_lem i [] c b = refl
continuous_lem i (e ∷ []) c b = refl
continuous_lem i (e ∷ f ∷ es) c b =
    rw ((==_iff ((e.index + 1) % 2 ^ 64) f.index).1 next)
      (continuous_lem (suc i) (f ∷ es) c.1 (omega arith))
  where
    next : (e.index + 1) % 2 ^ 64 ≡ f.index
    next = mod-eq_of_lt (omega arith) ∙ omega arith

-- Of entries that count up to at most 2 ^ 64, cutting keeps the first and as many behind it as
-- the limit takes: what is kept is a part from the front, within the limit if it is more than one
-- entry, and one entry more would pass it.
pub cut_raft_entries_lem :
    (limit i : ℕ) (e : Entry) (es : List Entry)
    → Consecutive i (e ∷ es)
    → i + length (e ∷ es) ≤ 2 ^ 64
    → (kept : List Entry) × (rest : List Entry) × (cut_raft_entries (e ∷ es) limit ≡ ok (e ∷ kept))
      × (es ≡ kept ++ rest)
      × ((kept ≡ []) ⊎ (total (e ∷ kept) ≤ limit))
      × Full limit (total (e ∷ kept)) rest
unfolding cut_raft_entries total
cut_raft_entries_lem limit i e es c b =
    let (kept, rest, cuts, parts, fits, full) = cut_after_lem limit (length e.payload) es in
    (kept, rest, rw (continuous_lem i (e ∷ es) c b) (ap (λ l. ok (e ∷ l)) cuts), parts, fits, full)
