-- ===== src/Storage/Segment/Append.antt =====
-- Appending entries to a segment that is being written.
use mathlib.Core.Path.{subst, subst₂}
use kingbus.Common.{
  ℕ, ◌+◌, ◌%◌, ◌^◌, ◌≤◌, ◌<◌, ◌≡◌, ◌≢◌, ◌⊎◌, sym, ap, ◌∙◌, true, false, not, ◌&&◌, ◌==◌, List, [],
  ◌∷◌, ◌++◌, map, arith, ok, length, length-append, length-drop, drop, length-map,
}
use kingbus.Storage.Env.{Env, Entry, Record, record_of, IsHealthy}
use kingbus.Storage.MmapFile.Frames.{layout, layout-append}
use kingbus.Storage.IndexFile.{RwFile}
use kingbus.Storage.Segment.{Segment, is_rdwr, append_each, append_records, extend_range}
use kingbus.Storage.Segment.Represents.{InRange, Consecutive, Filled, Holds, Consecutive-append}
use kingbus.Storage.Segment.Write.{append_each_lem}

-- Entries may follow at `start`: the segment is empty or ends just before.
abbrev pub Continues : Segment → ℕ → Type 0
Continues s start = (0 < start) × ((s.last_index ≡ 0) ⊎ (s.last_index + 1 ≡ start))

continuous :
    (last start : ℕ)
    → last + 1 < 2 ^ 64
    → (last ≡ 0) ⊎ (last + 1 ≡ start)
    → (not (last == 0) && not ((last + 1) % 2 ^ 64 == start)) ≡ false
continuous last start b h = ground arith

extend_range_lem :
    (n start : ℕ) (s : Segment)
    → 0 < n
    → start + n < 2 ^ 64
    → Continues s start
    → ((extend_range n start s).last_index + 1 ≡ start + n)
      × ((s.first_index ≡ 0) → (extend_range n start s).first_index ≡ start)
      × ((s.first_index ≢ 0) → (extend_range n start s).first_index ≡ s.first_index)
unfolding extend_range
extend_range_lem n start s p b c = (ground arith, λ h. ground arith, λ h. ground arith)

-- The range after the entries of a run.
module _ (n start : ℕ) (s : Segment) (e : Entry) (new : List Entry) (c : Continues s start)
    (k : Consecutive start (e ∷ new)) where
  InRange-extend :
      (es : List Entry)
      → length (e ∷ new) ≡ n
      → start + n < 2 ^ 64
      → InRange s.first_index s.last_index es
      → Consecutive s.first_index es
      → InRange
          (extend_range n start s).first_index
          (extend_range n start s).last_index
          (es ++ e ∷ new)
        × Consecutive (extend_range n start s).first_index (es ++ e ∷ new)
  InRange-extend [] m b r h =
      let range = extend_range_lem n start s (omega (arith, m)) b c in
      (ground (arith, range), subst (λ i. Consecutive i (e ∷ new)) (sym (range.1 r.0)) k)
  InRange-extend (x ∷ xs) m b r h =
      let range = extend_range_lem n start s (omega (arith, m)) b c in
      let same = range.2 (omega arith) in
      let at : s.first_index + length (x ∷ xs) ≡ start = omega arith in
      let size = length-append xs (e ∷ new) in
      (
        (omega (arith, same), omega arith, omega (arith, range.0, size)),
        rw same (
            Consecutive-append s.first_index (x ∷ xs) (e ∷ new) h
              (subst (λ i. Consecutive i (e ∷ new)) (sym at) k)),
      )

module _ (v : Env) where
  abbrev synced : Segment → Segment
  synced t = record t { log_file = record t.log_file { sync_position = t.log_file.write_position } }

  append_records_run :
      (s t : Segment) (records : List Record) (start : ℕ)
      → IsHealthy v
      → is_rdwr s.status ≡ true
      → s.last_index + 1 < 2 ^ 64
      → Continues s start
      → append_each v records start s ≡ (ok tt, t)
      → append_records v records start s ≡ (ok tt, extend_range (length records) start (synced t))
  unfolding append_records
  append_records_run s t records start healthy w b c runs =
      rw (w, continuous s.last_index start b c.1, runs, healthy.no_failure)

  Holds-extend :
      (s t : Segment) (ix jx : RwFile) (free post : List ℕ) (es : List Entry) (start n : ℕ)
      (e : Entry) (new : List Entry)
      → Holds v s ix free es
      → Filled v t jx post (es ++ e ∷ new)
      → (t.first_index ≡ s.first_index)
        × (t.last_index ≡ s.last_index)
        × (t.status ≡ s.status)
        × (t.log_file.max_bytes ≡ s.log_file.max_bytes)
      → Continues s start
      → Consecutive start (e ∷ new)
      → start + n < 2 ^ 64
      → length (e ∷ new) ≡ n
      → length (layout v (es ++ e ∷ new) ++ post) ≡ length (layout v es ++ free)
      → Holds v (extend_range n start (synced t)) jx post (es ++ e ∷ new)
  unfolding extend_range
  Holds-extend s t ix jx free post es start n e new h f same c k b m a = record {
    filled = record {
      contents = f.contents;
      written = f.written;
      indexed = f.indexed;
      entries = f.entries;
      index_file = f.index_file;
    };
    writable = same.2 ∙ h.writable;
    numbered = ranges.1;
    range = ranges.0;
    bounded = omega (arith, (extend_range_lem n start (synced t) (omega (arith, m)) b c').0);
    addressable = omega (arith, a, h.addressable);
    sized = same.3 ∙ h.sized ∙ sym a;
  }
    where
      c' : Continues (synced t) start
      c' = subst (λ (l : ℕ). (0 < start) × ((l ≡ 0) ⊎ (l + 1 ≡ start))) (sym same.1) c

      ranges :
          InRange
            (extend_range n start (synced t)).first_index
            (extend_range n start (synced t)).last_index
            (es ++ e ∷ new)
          × Consecutive (extend_range n start (synced t)).first_index (es ++ e ∷ new)
      ranges =
          InRange-extend n start (synced t) e new c' k es m b
            (subst₂ (λ a b. InRange a b es) (sym same.0) (sym same.1) h.range)
            (subst (λ i. Consecutive i es) (sym same.0) h.numbered)

  -- Where no call fails: entries that count up from where a segment ends (or from any index above
  -- 0, where it is empty), whose indices stay below 2 ^ 64 and whose records fit in the room
  -- behind its own, are appended to it. The segment then holds the old entries and the new ones,
  -- with less room.
  pub append_records-Holds :
      (s : Segment) (ix : RwFile) (free : List ℕ) (es : List Entry) (start : ℕ) (e : Entry)
      (new : List Entry)
      → IsHealthy v
      → Holds v s ix free es
      → Continues s start
      → Consecutive start (e ∷ new)
      → start + length (e ∷ new) < 2 ^ 64
      → length (layout v (e ∷ new)) ≤ length free
      → (t : Segment) × (jx : RwFile) × (append_records v (map (record_of v) (e ∷ new)) start s
          ≡ (ok tt, t))
        × Holds v t jx (drop (length (layout v (e ∷ new))) free) (es ++ e ∷ new)
  append_records-Holds s ix free es start e new healthy h c k b room =
      let (t, jx, runs, filled, sf, sl, ss, sm) =
        append_each_lem v s ix free es (e ∷ new) start healthy h.filled k b
          (omega (arith, h.addressable, length-append (layout v es) free)) room in
      (
        extend_range (length (map (record_of v) (e ∷ new))) start (synced t),
        jx,
        append_records_run s t (map (record_of v) (e ∷ new)) start healthy (ap is_rdwr h.writable)
            h.bounded c runs,
        Holds-extend s t ix jx free (drop (length (layout v (e ∷ new))) free) es start
            (length (map (record_of v) (e ∷ new))) e new h filled (sf, sl, ss, sm) c k
            (omega (arith, count)) (sym count)
            (omega (
              arith,
              h.addressable,
              length-append (layout v es) free,
              grown,
              length-append (layout v (es ++ e ∷ new)) (drop (length (layout v (e ∷ new))) free),
              length-drop (length (layout v (e ∷ new))) free,
            )),
      )
    where
      count : length (map (record_of v) (e ∷ new)) ≡ length (e ∷ new)
      count = length-map (record_of v) (e ∷ new)

      grown : length (layout v (es ++ e ∷ new)) ≡ length (layout v es) + length (layout v (e ∷ new))
      grown =
          ap length (layout-append v es (e ∷ new))
          ∙ length-append (layout v es) (layout v (e ∷ new))
