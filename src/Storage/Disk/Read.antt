-- ===== src/Storage/Disk/Read.antt =====
-- Reading entries from the log where they stand in the segment that is being written.
use mathlib.Core.Path.{subst}
use native.Mathlib.Nat.{mod-eq_of_lt}
use kingbus.Common.{
  ℕ, suc, ◌+◌, ◌-◌, ◌%◌, ◌^◌, ◌≤◌, ◌<◌, ◌≡◌, refl, sym, ap, true, none, some, List, [], ◌∷◌, ◌++◌,
  arith, append-nil, ok, length, length-append, ltb, le→ltb, le→leb, ◌==◌, Bool-cases, inl, inr,
  if◌then◌else◌, slice-at,
}
use kingbus.Storage.Env.{Env, Entry, IsCodec}
use kingbus.Storage.IndexFile.{RwFile}
use kingbus.Storage.Segment.{Segment}
use kingbus.Storage.Segment.Represents.{Consecutive, Consecutive-suffix, Consecutive-prefix, Holds}
use kingbus.Storage.Segment.Read.{Readable, within, read_raft_entries_lem}
use kingbus.Storage.Segment.Positions.{Holds-Readable}
use kingbus.Storage.Disk.{
  DiskStorage, covers, first_index, check_raft_index, find_ends, between, get_read_segments,
  cut_after, cut_raft_entries, read_segments, entries,
}
use kingbus.Storage.Disk.Limit.{total, continuous_lem}
use kingbus.Storage.Disk.Replace.{Ends, held_range, ends_at, get_elem?-last}

-- The bytes of the encodings.
unfoldable pub encoded_size : Env → List Entry → ℕ
encoded_size v [] = 0
encoded_size v (e ∷ es) = length (v.marshal_entry e) + encoded_size v es

module _ (v : Env) where
  within_all :
      (limit size : ℕ) (es : List Entry)
      → limit < 2 ^ 64
      → size + encoded_size v es ≤ limit
      → (within v limit size es).0 ≡ es
  unfolding within encoded_size
  within_all limit size [] b h = refl
  within_all limit size (e ∷ []) b h = refl
  within_all limit size (e ∷ f ∷ es) b h =
      rw (mod-eq_of_lt small, le→ltb limit (size + length (v.marshal_entry e)) (omega arith))
        (ap (λ l. e ∷ l)
          (within_all limit (size + length (v.marshal_entry e)) (f ∷ es) b (omega arith)))
    where
      small : size + length (v.marshal_entry e) < 2 ^ 64
      small = omega arith

cut_after_all :
    (limit size : ℕ) (es : List Entry) → size + total es ≤ limit → cut_after limit size es ≡ es
unfolding cut_after total
cut_after_all limit size [] h = refl
cut_after_all limit size (e ∷ es) h = rw (
  le→ltb limit (size + length e.payload) (omega arith),
  cut_after_all limit (size + length e.payload) es (omega arith),
)

-- Both ends of the range are in the last segment.
both_last :
    (full : List Segment) (s : Segment) (first last : ℕ)
    → covers s first ≡ true
    → covers s last ≡ true
    → find_ends (full ++ s ∷ []) first last (suc (length full)) none none
      ≡ (some (length full), some (length full))
unfolding find_ends
both_last full s first last a b = rw (get_elem?-last full s, find_ends, a, b)

covered : (s : Segment) (i : ℕ) → s.first_index ≤ i → i ≤ s.last_index → covers s i ≡ true
unfolding covers
covered s i a b = rw (le→leb s.first_index i a, le→leb i s.last_index b)

read_last :
    (full : List Segment) (s : Segment) (first last : ℕ)
    → covers s first ≡ true
    → covers s last ≡ true
    → get_read_segments (full ++ s ∷ []) first last ≡ ok (s ∷ [])
unfolding get_read_segments between
read_last full s first last a b =
    rw (count, both_last full s first last a b, le→ltb (length full) (length full) (omega arith))
      (slice-at (full ++ s ∷ []) full (s ∷ []) [] (length full) (suc (length full)) refl refl
        (omega arith))
  where
    count : length (full ++ s ∷ []) ≡ suc (length full)
    count = omega (arith, length-append full (s ∷ []))

clip_begin : (a b : ℕ) → a ≤ b → (if ltb a b then b else a) ≡ b
clip_begin a b h = ground arith

clip_end : (a b : ℕ) → b ≤ a → (if ltb a b then a else b) ≡ b
clip_end a b h = ground arith

module _ (v : Env) where
  readable :
      (s : Segment) (ix : RwFile) (free : List ℕ) (pre post : List Entry) (e : Entry)
      → Holds v s ix free (pre ++ e ∷ post)
      → Readable v s free (pre ++ e ∷ post)
  readable s ix free [] post e h = Holds-Readable v s ix free e post h
  readable s ix free (x ∷ pre) post e h = Holds-Readable v s ix free x (pre ++ e ∷ post) h

  read_segment :
      (s : Segment) (ix : RwFile) (free : List ℕ) (pre w post : List Entry) (e : Entry) (limit : ℕ)
      → IsCodec v
      → Holds v s ix free (pre ++ (e ∷ w ++ post))
      → encoded_size v (e ∷ w) ≤ limit
      → limit < 2 ^ 64
      → s.first_index ≤ e.index
      → e.index + length w ≤ s.last_index
      → read_segments v (s ∷ []) e.index (e.index + length w) limit ≡ ok (e ∷ w)
  unfolding read_segments
  read_segment s ix free pre w post e limit codec h size b lo hi =
      rw
        (
          clip_begin s.first_index e.index lo,
          clip_end s.last_index (e.index + length w) hi,
          read_raft_entries_lem v s free pre w post e limit codec
              (readable s ix free pre (w ++ post) e h),
          within_all v limit 0 (e ∷ w) b (omega (arith, size)),
        )
        (elim (Bool-cases (limit - (within v limit 0 (e ∷ w)).1 == 0)) [
          | inl done ↦ rw done
          | inr more ↦ rw (more, append-nil)
        ])

module _ {M : Type 0} (v : Env) where
  entries_run :
      (d : DiskStorage M) (full : List Segment) (s : Segment) (lo n limit : ℕ) (e : Entry)
      (w : List Entry)
      → d.segments ≡ full ++ s ∷ []
      → first_index d ≤ lo
      → s.first_index ≤ lo
      → lo + n ≤ s.last_index
      → s.last_index + 1 < 2 ^ 64
      → read_segments v (s ∷ []) lo (lo + n) limit ≡ ok (e ∷ w)
      → cut_raft_entries (e ∷ w) limit ≡ ok (e ∷ w)
      → entries v d lo (lo + n + 1) limit ≡ ok (e ∷ w)
  unfolding entries check_raft_index
  entries_run d full s lo n limit e w q fst a b c reads cuts = rw (
    final,
    le→ltb (lo + n) lo (omega arith),
    le→ltb lo (first_index d) fst,
    ends_at v d full s q,
    le→ltb s.last_index lo (omega arith),
    le→ltb (lo + n) (first_index d) (omega (arith, fst)),
    le→ltb s.last_index (lo + n) b,
    q,
    read_last full s lo (lo + n) (covered s lo a (omega arith))
        (covered s (lo + n) (omega (arith, a)) b),
    reads,
    cuts,
  )
    where
      final : (lo + n + 1 + 2 ^ 64 - 1) % 2 ^ 64 ≡ lo + n
      final = omega arith

  -- A range of entries that the last segment holds, above the first index of the log, is returned
  -- whole and as it was stored, where the codecs are round trips and neither the encodings nor
  -- the data of the range pass the size limit, a uint64: Entries gives back what was saved.
  pub entries-Ends :
      (d : DiskStorage M) (full : List Segment) (s : Segment) (ix : RwFile) (free : List ℕ)
      (pre w post : List Entry) (e : Entry) (limit : ℕ)
      → IsCodec v
      → Ends v d full s ix free (pre ++ (e ∷ w ++ post))
      → first_index d ≤ e.index
      → encoded_size v (e ∷ w) ≤ limit
      → total (e ∷ w) ≤ limit
      → limit < 2 ^ 64
      → entries v d e.index (e.index + length w + 1) limit ≡ ok (e ∷ w)
  unfolding cut_raft_entries total
  entries-Ends d full s ix free pre w post e limit codec h fst size data_size b =
      entries_run d full s e.index (length w) limit e w h.segments fst range.1 inside
        h.holds.bounded
        (read_segment v s ix free pre w post e limit codec h.holds size b range.1 inside)
        (rw (
          continuous_lem e.index (e ∷ w) run (omega (arith, inside, h.holds.bounded)),
          cut_after_all limit (length e.payload) w data_size,
        ))
    where
      range : (0 < e.index) × (s.first_index ≤ e.index) × (e.index ≤ s.last_index)
      range = held_range v s ix free pre (w ++ post) e h.holds

      tail : Consecutive (s.first_index + length pre) (e ∷ w ++ post)
      tail = Consecutive-suffix s.first_index pre (e ∷ w ++ post) h.holds.numbered

      run : Consecutive e.index (e ∷ w)
      run =
          subst (λ n. Consecutive n (e ∷ w)) (sym tail.0)
            (Consecutive-prefix (s.first_index + length pre) (e ∷ w) post tail)

      inside : e.index + length w ≤ s.last_index
      inside = omega (
        arith,
        tail.0,
        (readable v s ix free pre (w ++ post) e h.holds).range_end,
        length-append pre (e ∷ w ++ post),
        length-append w post,
      )
