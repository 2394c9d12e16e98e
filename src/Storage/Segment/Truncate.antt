-- ===== src/Storage/Segment/Truncate.antt =====
-- Cutting the end of a segment that is being written.
use kingbus.Common.{
  ℕ, suc, ◌+◌, ◌-◌, ◌*◌, ◌≤◌, ◌≡◌, refl, sym, ap, ◌∙◌, List, [], ◌∷◌, ◌++◌, arith, append_assoc,
  append-nil, ok, length, length-append, length-replicate, take, take-length-append, replicate,
  ◌==◌, if◌then◌else◌, ==_iff, ==_ne, length-append,
}
use kingbus.Storage.Env.{Env, Entry, IsHealthy}
use kingbus.Storage.MmapFile
use kingbus.Storage.MmapFile.Frames.{layout, layout-append, truncate_over}
use kingbus.Storage.IndexFile.{
  IndexEntry, RwFile, rw_index, index_entry_size, marshal, get_raft_entry_position,
}
use kingbus.Storage.IndexFile.Codec.{truncate_suffix_lem}
use kingbus.Storage.Segment.{Segment, is_rdwr, truncate_suffix}
use kingbus.Storage.Segment.Represents.{
  Consecutive-prefix, Consecutive-suffix, index_of, index_of-append, index_bytes,
  index_bytes-append, Filled, Filled-ranged, Holds,
}
use kingbus.Storage.Segment.Positions.{length-index_of, Holds-located}

length-index_bytes : (xs : List IndexEntry) → length (index_bytes xs) ≡ length xs * index_entry_size
unfolding marshal
length-index_bytes [] = omega arith
length-index_bytes (x ∷ xs) = omega (arith, length-index_bytes xs)

module _ (v : Env) where
  -- The index and the segment after the cut at the record behind `pre`.
  abbrev index_cut : RwFile → List Entry → RwFile
  index_cut ix pre = record ix {
    entries = take (length pre) ix.entries;
    pending = [];
    file = take (length pre * index_entry_size) (ix.file ++ ix.pending);
  }

  abbrev segment_cut : Segment → RwFile → List Entry → List ℕ → Segment
  segment_cut s ix pre rest = record s {
    log_file = record s.log_file {
      mapped = layout v pre ++ rest;
      write_position = length (layout v pre);
      sync_position = length (layout v pre);
    };
    log_index = rw_index (index_cut ix pre);
  }

  Filled-cut :
      (s : Segment) (ix : RwFile) (free rest : List ℕ) (pre post : List Entry)
      → Filled v s ix free (pre ++ post)
      → Filled v (segment_cut s ix pre rest) (index_cut ix pre) rest pre
  Filled-cut s ix free rest pre post f = record {
    contents = refl;
    written = refl;
    indexed = refl;
    entries =
        rw (f.entries, index_of-append v 0 pre post, ← length-index_of v 0 pre)
          (take-length-append (index_of v 0 pre) (index_of v (0 + length (layout v pre)) post));
    index_file =
        rw (append-nil, f.index_file, index_of-append v 0 pre post, index_bytes-append, ← bytes)
          (take-length-append (index_bytes (index_of v 0 pre))
            (index_bytes (index_of v (0 + length (layout v pre)) post)));
  }
    where
      bytes : length (index_bytes (index_of v 0 pre)) ≡ length pre * index_entry_size
      bytes =
          length-index_bytes (index_of v 0 pre)
          ∙ ap (λ n. n * index_entry_size) (length-index_of v 0 pre)

  -- The segment's range after the cut at raft index `i`.
  abbrev range_cut : ℕ → Segment → Segment
  range_cut i t =
      if i == t.first_index
      then record t { first_index = 0; last_index = 0 }
      else record t { last_index = i - 1 }

  truncate_run :
      (s : Segment) (ix : RwFile) (free : List ℕ) (pre post : List Entry) (e : Entry)
      → IsHealthy v
      → Holds v s ix free (pre ++ e ∷ post)
      → e.index ≡ s.first_index + length pre
      → get_raft_entry_position s.log_index e.index s.first_index s.status
        ≡ ok (length (layout v pre))
      → truncate_suffix v e.index s ≡ (
        ok tt,
        range_cut e.index
            (segment_cut s ix pre (replicate (length (layout v (e ∷ post))) 0 ++ free)),
      )
  unfolding truncate_suffix
  truncate_run s ix free pre post e healthy h i located = rw (
    located,
    cut,
    ap is_rdwr h.writable,
    truncate_suffix_lem v ix s.log_index e.index s.first_index (length pre) healthy h.indexed i
        entries_fit bytes_fit,
  )
    where
      cut : MmapFile.truncate_suffix v (length (layout v pre)) s.log_file ≡ (
        ok tt,
        (segment_cut s ix pre (replicate (length (layout v (e ∷ post))) 0 ++ free)).log_file,
      )
      cut =
          truncate_over v s.log_file (layout v pre) (layout v (e ∷ post)) free healthy
            (h.contents
              ∙ rw (layout-append v pre (e ∷ post))
                  (append_assoc (layout v pre) (layout v (e ∷ post)) free))
            (h.written
              ∙ ap length (layout-append v pre (e ∷ post))
              ∙ length-append (layout v pre) (layout v (e ∷ post)))

      count : length (index_of v 0 (pre ++ e ∷ post)) ≡ length pre + suc (length post)
      count = length-index_of v 0 (pre ++ e ∷ post) ∙ length-append pre (e ∷ post)

      entries_fit : length pre ≤ length ix.entries
      entries_fit = omega (arith, ap length h.entries, count)

      bytes_fit : length pre * index_entry_size ≤ length (ix.file ++ ix.pending)
      bytes_fit = omega (
        arith,
        ap length h.index_file,
        length-index_bytes (index_of v 0 (pre ++ e ∷ post)),
        count,
      )

  Holds-cut :
      (s : Segment) (ix : RwFile) (free rest : List ℕ) (pre post : List Entry) (e : Entry)
      → Holds v s ix free (pre ++ e ∷ post)
      → e.index ≡ s.first_index + length pre
      → length (layout v pre ++ rest) ≡ length (layout v (pre ++ e ∷ post) ++ free)
      → Holds v (range_cut e.index (segment_cut s ix pre rest)) (index_cut ix pre) rest pre
  Holds-cut s ix free rest [] post e h i a =
      let here = (==_iff e.index s.first_index).1 (omega arith) in
      rw here record {
        filled =
            Filled-ranged v (segment_cut s ix [] rest) (index_cut ix []) rest [] 0 0
              (Filled-cut s ix free rest [] (e ∷ post) h.filled);
        writable = h.writable;
        numbered = tt;
        range = (refl, refl);
        bounded = omega arith;
        addressable = omega (arith, a, h.addressable);
        sized = h.sized ∙ sym a;
      }
  Holds-cut s ix free rest (x ∷ pre) post e h i a =
      let later = ==_ne e.index s.first_index (omega arith) in
      rw later record {
        filled =
            Filled-ranged v (segment_cut s ix (x ∷ pre) rest) (index_cut ix (x ∷ pre)) rest
              (x ∷ pre) s.first_index (e.index - 1)
              (Filled-cut s ix free rest (x ∷ pre) (e ∷ post) h.filled);
        writable = h.writable;
        numbered = Consecutive-prefix s.first_index (x ∷ pre) (e ∷ post) h.numbered;
        range = (h.range.0, h.range.1, omega arith);
        bounded = omega (arith, h.bounded, h.range, length-append pre (e ∷ post));
        addressable = omega (arith, a, h.addressable);
        sized = h.sized ∙ sym a;
      }

  -- Where no call fails: cutting a segment that is being written at the raft index of one of its
  -- entries removes that entry and all behind it. The segment then holds the entries before it,
  -- and its file has zeroed room where the others stood.
  pub truncate_suffix-Holds :
      (s : Segment) (ix : RwFile) (free : List ℕ) (pre post : List Entry) (e : Entry)
      → IsHealthy v
      → Holds v s ix free (pre ++ e ∷ post)
      → (t : Segment) × (jx : RwFile) × (truncate_suffix v e.index s ≡ (ok tt, t))
        × Holds v t jx (replicate (length (layout v (e ∷ post))) 0 ++ free) pre
  truncate_suffix-Holds s ix free pre post e healthy h =
      let rest = replicate (length (layout v (e ∷ post))) 0 ++ free in
      let at = (Consecutive-suffix s.first_index pre (e ∷ post) h.numbered).0 in
      (
        range_cut e.index (segment_cut s ix pre rest),
        index_cut ix pre,
        truncate_run s ix free pre post e healthy h at (Holds-located v s ix free pre post e h),
        Holds-cut s ix free rest pre post e h at (
            omega (
              arith,
              h.addressable,
              length-append (layout v (pre ++ e ∷ post)) free,
              ap length (layout-append v pre (e ∷ post)),
              length-append (layout v pre) (layout v (e ∷ post)),
              length-append (layout v pre) rest,
              length-append (replicate (length (layout v (e ∷ post))) 0) free,
              length-replicate {A = ℕ} (length (layout v (e ∷ post))) 0,
            )),
      )
