-- ===== src/Storage/Disk/Replace.antt =====
-- Writing at the end of the log, and replacing its end.
use mathlib.Core.Path.{subst}
use kingbus.Common.{
  ℕ, suc, ◌+◌, ◌^◌, ◌≤◌, ◌<◌, ◌≡◌, inl, inr, refl, ap, ◌∙◌, true, false, some, List, [], ◌∷◌, ◌++◌,
  map, arith, ok, length, length-append, le→leb, le→ltb, drop, take_all, drop_all, get_elem?,
  replicate, length-replicate,
}
use kingbus.Storage.Env.{Env, Entry, record_of, IsHealthy, Exec}
use kingbus.Storage.MmapFile.Frames.{frame, layout, length-frame}
use kingbus.Storage.IndexFile.{RwFile}
use kingbus.Storage.Segment
use kingbus.Storage.Segment.{Segment, need_rolling, append_records}
use kingbus.Storage.Segment.Represents.{Consecutive, Consecutive-suffix, Holds}
use kingbus.Storage.Segment.Append.{Continues, append_records-Holds}
use kingbus.Storage.Segment.Truncate.{truncate_suffix-Holds}
use kingbus.Storage.Disk.{
  DiskStorage, MetaStorage, records_size, covers, on_last_of, last_segment, find_segment,
  last_index, roll, cut_at, get_write_segment, save_into, save_raft_entries, truncate_suffix,
  append_raft_entries,
}

last_segment-append : (ss : List Segment) (s : Segment) → last_segment (ss ++ s ∷ []) ≡ some s
unfolding last_segment
last_segment-append [] s = refl
last_segment-append (x ∷ []) s = refl
last_segment-append (x ∷ y ∷ ss) s = last_segment-append (y ∷ ss) s

on_last_of-append :
    {A : Type 0} (m : Exec Segment A) (ss : List Segment) (s : Segment)
    → on_last_of m (ss ++ s ∷ []) ≡ ((m s).0, ss ++ (m s).1 ∷ [])
unfolding on_last_of
on_last_of-append m [] s = refl
on_last_of-append m (x ∷ []) s = refl
on_last_of-append m (x ∷ y ∷ ss) s = rw (on_last_of-append m (y ∷ ss) s)

pub get_elem?-last :
    (ss : List Segment) (s : Segment) → get_elem? (ss ++ s ∷ []) (length ss) ≡ some s
get_elem?-last [] s = refl
get_elem?-last (x ∷ ss) s = get_elem?-last ss s

found_at :
    (full : List Segment) (s : Segment) (i : ℕ)
    → covers s i ≡ true
    → find_segment (full ++ s ∷ []) i (suc (length full)) ≡ some (length full)
unfolding find_segment
found_at full s i h = rw (get_elem?-last full s, find_segment, h)

found_last :
    (full : List Segment) (s : Segment) (i : ℕ)
    → s.first_index ≤ i
    → i ≤ s.last_index
    → find_segment (full ++ s ∷ []) i (length (full ++ s ∷ [])) ≡ some (length full)
unfolding covers
found_last full s i a b =
    ap (find_segment (full ++ s ∷ []) i) (length-append full (s ∷ []))
    ∙ ap (find_segment (full ++ s ∷ []) i) {x = length full + 1} {y = suc (length full)}
        (omega arith)
    ∙ found_at full s i (rw (le→leb s.first_index i a, le→leb i s.last_index b))

module _ (v : Env) where
  records_size-map :
      (es : List Entry) → records_size v (map (record_of v) es) ≡ length (layout v es)
  unfolding records_size layout
  records_size-map [] = refl
  records_size-map (e ∷ es) =
      omega (arith, records_size-map es, length-append (frame v e) (layout v es), length-frame v e)

  can_stay :
      (s : Segment) (ix : RwFile) (free : List ℕ) (es : List Entry) (n : ℕ)
      → Holds v s ix free es
      → n ≤ length free
      → need_rolling s n ≡ false
  unfolding need_rolling
  can_stay s ix free es n h room =
      le→ltb s.log_file.max_bytes (s.log_file.write_position + n)
        (omega (arith, h.sized, h.written, length-append (layout v es) free, room))

  -- The raft index of an entry that a segment holds is in the segment's range.
  pub held_range :
      (s : Segment) (ix : RwFile) (free : List ℕ) (pre post : List Entry) (old : Entry)
      → Holds v s ix free (pre ++ old ∷ post)
      → (0 < old.index) × (s.first_index ≤ old.index) × (old.index ≤ s.last_index)
  held_range s ix free [] post old h =
      (omega (arith, h.range), omega (arith, h.range), omega (arith, h.range))
  held_range s ix free (x ∷ pre) post old h =
      let at = (Consecutive-suffix s.first_index (x ∷ pre) (old ∷ post) h.numbered).0 in
      let size = length-append pre (old ∷ post) in
      (omega (arith, h.range, at), omega (arith, at), omega (arith, h.range, at, size))

  -- New entries may follow what is left in front of an entry that the segment held.
  follow_cut :
      (s t : Segment) (ix jx : RwFile) (free rest : List ℕ) (pre post : List Entry) (old : Entry)
      → Holds v s ix free (pre ++ old ∷ post)
      → Holds v t jx rest pre
      → Continues t old.index
  follow_cut s t ix jx free rest [] post old h k =
      ((held_range s ix free [] post old h).0, inl (k.range.1))
  follow_cut s t ix jx free rest (x ∷ pre) post old h k =
      let at = (Consecutive-suffix s.first_index (x ∷ pre) (old ∷ post) h.numbered).0 in
      (
        (held_range s ix free (x ∷ pre) post old h).0,
        inr (omega (arith, at, h.numbered.0, k.range)),
      )

-- The log ends in a segment that is being written and holds `es`.
pub record Ends {M : Type 0} (v : Env) (d : DiskStorage M) (full : List Segment) (s : Segment)
    (ix : RwFile) (free : List ℕ) (es : List Entry) : Type 0 where
  pub segments : d.segments ≡ full ++ s ∷ []
  pub holds : Holds v s ix free es

module _ {M : Type 0} (v : Env) where
  save_run :
      (d : DiskStorage M) (full : List Segment) (s t : Segment) (segment_size : ℕ) (e : Entry)
      (new : List Entry)
      → d.segments ≡ full ++ s ∷ []
      → length (layout v (e ∷ new)) ≤ segment_size
      → need_rolling s (length (layout v (e ∷ new))) ≡ false
      → append_records v (map (record_of v) (e ∷ new)) e.index s ≡ (ok tt, t)
      → save_raft_entries v segment_size (e ∷ new) d
        ≡ (ok tt, record d { segments = full ++ t ∷ [] })
  unfolding save_raft_entries get_write_segment roll save_into
  save_run d full s t segment_size e new q size stays runs = rw (
    records_size-map v (e ∷ new),
    le→ltb segment_size (length (layout v (e ∷ new))) size,
    q,
    last_segment-append,
    stays,
    on_last_of-append,
    runs,
  )

  -- Where no call fails: entries that count up from where the last segment ends, whose indices
  -- stay below 2 ^ 64, for which it has room, and whose records are no larger than a segment, are
  -- saved in it. It then holds them behind those that it held, and the segments before it are as
  -- they were.
  pub save_raft_entries-Ends :
      (d : DiskStorage M) (full : List Segment) (s : Segment) (ix : RwFile) (free : List ℕ)
      (es : List Entry) (segment_size : ℕ) (e : Entry) (new : List Entry)
      → IsHealthy v
      → Ends v d full s ix free es
      → Continues s e.index
      → Consecutive e.index (e ∷ new)
      → e.index + length (e ∷ new) < 2 ^ 64
      → length (layout v (e ∷ new)) ≤ length free
      → length (layout v (e ∷ new)) ≤ segment_size
      → (d' : DiskStorage M) × (t : Segment) × (jx : RwFile) × (save_raft_entries v segment_size
            (e ∷ new)
            d
          ≡ (ok tt, d'))
        × Ends v d' full t jx (drop (length (layout v (e ∷ new))) free) (es ++ e ∷ new)
  save_raft_entries-Ends d full s ix free es segment_size e new healthy h c k b room size =
      let (t, jx, runs, holds) =
        append_records-Holds v s ix free es e.index e new healthy h.holds c k b room in
      (
        record d { segments = full ++ t ∷ [] },
        t,
        jx,
        save_run d full s t segment_size e new h.segments size
            (can_stay v s ix free es (length (layout v (e ∷ new))) h.holds room) runs,
        record { segments = refl; holds = holds },
      )

  truncate_run :
      (meta : MetaStorage M) (d : DiskStorage M) (full : List Segment) (s t : Segment) (i : ℕ)
      → d.segments ≡ full ++ s ∷ []
      → s.first_index ≤ i
      → i ≤ s.last_index
      → Segment.truncate_suffix v i s ≡ (ok tt, t)
      → truncate_suffix v meta i d ≡ (ok tt, record d { segments = full ++ t ∷ [] })
  unfolding truncate_suffix cut_at
  truncate_run meta d full s t i q a b runs = rw (
    q,
    found_last full s i a b,
    take_all (suc (length full)) (full ++ s ∷ []) size,
    drop_all (suc (length full)) (full ++ s ∷ []) size,
    on_last_of-append,
    runs,
  )
    where
      size : length (full ++ s ∷ []) ≤ suc (length full)
      size = omega (arith, length-append full (s ∷ []))

  append_run :
      (meta : MetaStorage M) (d d1 d' : DiskStorage M) (segment_size : ℕ) (e : Entry)
      (new : List Entry)
      → e.index ≤ last_index d
      → truncate_suffix v meta e.index d ≡ (ok tt, d1)
      → save_raft_entries v segment_size (e ∷ new) d1 ≡ (ok tt, d')
      → append_raft_entries v meta segment_size (e ∷ new) d ≡ (ok tt, d')
  unfolding append_raft_entries
  append_run meta d d1 d' segment_size e new old cuts saves =
      rw (le→leb e.index (last_index d) old, cuts, saves)

  pub ends_at :
      (d : DiskStorage M) (full : List Segment) (s : Segment)
      → d.segments ≡ full ++ s ∷ []
      → last_index d ≡ s.last_index
  unfolding last_index
  ends_at d full s q = rw (q, last_segment-append full s, last_index)

  -- Where no call fails: entries of a new leader replace the end of the log from the raft index
  -- at which they start, where the last segment holds an entry of that index and has room for
  -- them, their indices count up and stay below 2 ^ 64, and their records are no larger than a
  -- segment. The segment then holds the entries before that index and the new ones behind them,
  -- and nothing of the old end; the segments before it are as they were.
  pub append_raft_entries-Ends :
      (meta : MetaStorage M) (d : DiskStorage M) (full : List Segment) (s : Segment) (ix : RwFile)
      (free : List ℕ) (pre post : List Entry) (old : Entry) (segment_size : ℕ) (e : Entry)
      (new : List Entry)
      → IsHealthy v
      → Ends v d full s ix free (pre ++ old ∷ post)
      → old.index ≡ e.index
      → Consecutive e.index (e ∷ new)
      → e.index + length (e ∷ new) < 2 ^ 64
      → length (layout v (e ∷ new)) ≤ length (layout v (old ∷ post)) + length free
      → length (layout v (e ∷ new)) ≤ segment_size
      → (d' : DiskStorage M) × (t : Segment) × (jx : RwFile) × (rest : List ℕ)
        × (append_raft_entries v meta segment_size (e ∷ new) d ≡ (ok tt, d'))
        × Ends v d' full t jx rest (pre ++ e ∷ new)
  append_raft_entries-Ends meta d full s ix free pre post old segment_size e new healthy h same k b
        room size =
      let (t, jx, cuts, held) = truncate_suffix-Holds v s ix free pre post old healthy h.holds in
      let range = held_range v s ix free pre post old h.holds in
      let d1 : DiskStorage M = record d { segments = full ++ t ∷ [] } in
      let (d', u, kx, saves, ends) =
        save_raft_entries-Ends d1 full t jx (replicate (length (layout v (old ∷ post))) 0 ++ free)
          pre segment_size e new healthy (record { segments = refl; holds = held })
          (subst (λ i. Continues t i) same
            (follow_cut v s t ix jx free (replicate (length (layout v (old ∷ post))) 0 ++ free) pre
              post old h.holds held))
          k b
          (omega (
            arith,
            room,
            length-append (replicate (length (layout v (old ∷ post))) 0) free,
            length-replicate {A = ℕ} (length (layout v (old ∷ post))) 0,
          ))
          size in
      (
        d',
        u,
        kx,
        drop (length (layout v (e ∷ new))) (replicate (length (layout v (old ∷ post))) 0 ++ free),
        append_run meta d d1 d' segment_size e new
            (omega (arith, same, range, ends_at d full s h.segments))
            (truncate_run meta d full s t e.index h.segments (omega (arith, same, range))
              (omega (arith, same, range))
              (subst (λ i. Segment.truncate_suffix v i s ≡ (ok tt, t)) same cuts))
            saves,
        ends,
      )
