-- ===== src/Storage/Segment/Positions.antt =====
-- The index of a segment has the position of each of its records.
use mathlib.Core.Path.{subst}
use native.Mathlib.Nat.{zero-add}
use kingbus.Common.{
  ℕ, suc, ◌+◌, ◌-◌, ◌≡◌, refl, ap, ◌∙◌, some, List, [], ◌∷◌, ◌++◌, arith, ok, length, length-append,
  get_elem?, le→ltb, ==_refl,
}
use kingbus.Storage.Env.{Env, Entry}
use kingbus.Storage.MmapFile.Frames.{frame, layout}
use kingbus.Storage.IndexFile.{RwFile, Index, rw_index, segment_rdwr, get_raft_entry_position}
use kingbus.Storage.Segment.{Segment, is_closed}
use kingbus.Storage.Segment.Represents.{Consecutive-suffix, index_of, index_of-append, Holds}
use kingbus.Storage.Segment.Read.{Readable}

get_elem?-middle {ℓ} :
    {A : Type ℓ} (xs : List A) (y : A) (ys : List A) → get_elem? (xs ++ y ∷ ys) (length xs) ≡ some y
get_elem?-middle [] y ys = refl
get_elem?-middle (x ∷ xs) y ys = get_elem?-middle xs y ys

module _ (v : Env) where
  pub length-index_of : (p : ℕ) (es : List Entry) → length (index_of v p es) ≡ length es
  length-index_of p [] = refl
  length-index_of p (e ∷ es) = ap suc (length-index_of (p + length (frame v e)) es)

  position_found :
      (x : Index) (ix : RwFile) (first : ℕ) (pre post : List Entry) (e : Entry)
      → x ≡ rw_index ix
      → ix.entries ≡ index_of v 0 (pre ++ e ∷ post)
      → e.index ≡ first + length pre
      → get_raft_entry_position x e.index first segment_rdwr ≡ ok (length (layout v pre))
  unfolding get_raft_entry_position
  position_found x ix first pre post e q n i =
      rw (q, le→ltb e.index first (omega arith), found, ==_refl)
    where
      offset : e.index - first ≡ length (index_of v 0 pre)
      offset = omega (arith, length-index_of 0 pre)

      found :
          get_elem? ix.entries (e.index - first)
          ≡ some (record { raft_index = e.index; file_position = length (layout v pre) })
      found =
          rw (n, index_of-append v 0 pre (e ∷ post), zero-add, offset)
            (get_elem?-middle (index_of v 0 pre)
              (record { raft_index = e.index; file_position = length (layout v pre) })
              (index_of v (length (layout v pre) + length (frame v e)) post))

  -- Each entry that a segment holds is found at the end of the records before it.
  pub Holds-located :
      (s : Segment) (ix : RwFile) (free : List ℕ) (pre post : List Entry) (e : Entry)
      → Holds v s ix free (pre ++ e ∷ post)
      → get_raft_entry_position s.log_index e.index s.first_index s.status
        ≡ ok (length (layout v pre))
  Holds-located s ix free pre post e h =
      ap (λ st. get_raft_entry_position s.log_index e.index s.first_index st) h.writable
      ∙ position_found s.log_index ix s.first_index pre post e h.indexed h.entries
          (Consecutive-suffix s.first_index pre (e ∷ post) h.numbered).0

  -- A segment that is being written and holds entries can be read: its index gives for each of
  -- them the place of its record, and its range is theirs.
  pub Holds-Readable :
      (s : Segment) (ix : RwFile) (free : List ℕ) (e : Entry) (es : List Entry)
      → Holds v s ix free (e ∷ es)
      → Readable v s free (e ∷ es)
  Holds-Readable s ix free e es h = record {
    open_status = ap is_closed h.writable;
    contents = h.contents;
    numbered = h.numbered;
    range_end = omega (arith, h.range);
    addressable = omega (arith, h.addressable, length-append (layout v (e ∷ es)) free);
    located =
        λ pre x post q. Holds-located s ix free pre post x (subst (λ l. Holds v s ix free l) q h);
  }
