-- ===== src/Storage/Segment/Write.antt =====
-- Writing records behind those of a segment, and their index entries.
use mathlib.Core.Path.{subst, subst₂}
use native.Mathlib.Numerals.{add-one}
use kingbus.Common.{
  ℕ, suc, ◌+◌, ◌-◌, ◌^◌, ◌≤◌, ◌<◌, ◌≡◌, refl, sym, ap, ◌∙◌, List, [], ◌∷◌, ◌++◌, map, append_assoc,
  append-nil, arith, ok, length, length-append, length-take, length-drop, take, drop,
  take-append-drop, drop-drop,
}
use native.Mathlib.Nat.{mod-eq_of_lt, zero-add}
use kingbus.Storage.Env.{Env, Entry, record_of, IsHealthy}
use kingbus.Storage.Bytes.{le32, length-le32}
use kingbus.Storage.MmapFile.{MmapFile, append}
use kingbus.Storage.MmapFile.Frames.{body, frame, layout, length-frame, layout-append, append_over}
use kingbus.Storage.IndexFile.{IndexEntry, RwFile, rw_index, marshal}
use kingbus.Storage.IndexFile.Codec.{append_index_entry_lem}
use kingbus.Storage.Segment.{Segment, append_record, append_each}
use kingbus.Storage.Segment.Represents.{Consecutive, Filled, index_of-append, index_bytes-append}

-- The index and the segment after one more record over the bytes that are free.
abbrev entry_for : Env → List Entry → Entry → IndexEntry
entry_for v es e = record { raft_index = e.index; file_position = length (layout v es) }

abbrev index_after : Env → RwFile → List Entry → Entry → RwFile
index_after v ix es e = record ix {
  pending = ix.pending ++ marshal (entry_for v es e);
  entries = ix.entries ++ entry_for v es e ∷ [];
}

abbrev segment_after : Env → Segment → RwFile → List Entry → Entry → List ℕ → Segment
segment_after v s ix es e post = record s {
  log_file = record s.log_file {
    mapped = layout v es ++ (frame v e ++ post);
    write_position = length (layout v es) + length (frame v e);
  };
  log_index = rw_index (index_after v ix es e);
}

-- The log file between the two writes of a record: its length stands there.
abbrev header_file : Env → Segment → List Entry → Entry → List ℕ → MmapFile
header_file v s es e rest = record s.log_file {
  mapped = layout v es ++ (le32 (length (body v e)) ++ rest);
  write_position = length (layout v es) + length (le32 (length (body v e)));
}

split :
    (n m : ℕ) (free : List ℕ) → free ≡ take n free ++ (take m (drop n free) ++ drop (n + m) free)
split n m free =
    sym (take-append-drop n free)
    ∙ ap (λ t. take n free ++ t)
        (sym (take-append-drop m (drop n free))
          ∙ ap (λ t. take m (drop n free) ++ t) (drop-drop m n free))

module _ (v : Env) where
  header_written :
      (s : Segment) (ix : RwFile) (o1 rest : List ℕ) (es : List Entry) (e : Entry)
      → Filled v s ix (o1 ++ rest) es
      → length o1 ≡ 4
      → append (le32 (length (body v e))) s.log_file
        ≡ (ok (length (layout v es)), header_file v s es e rest)
  header_written s ix o1 rest es e f h =
      append_over v s.log_file (layout v es) o1 rest (le32 (length (body v e))) f.contents f.written
        (omega (arith, length-le32 (length (body v e))))

  body_written :
      (s : Segment) (o2 post : List ℕ) (es : List Entry) (e : Entry)
      → length o2 ≡ length (body v e)
      → append (body v e) (header_file v s es e (o2 ++ post)) ≡ (
        ok (length (layout v es ++ le32 (length (body v e)))),
        (segment_after v s
            (record { name = s.log_file.name; entries = []; pending = []; file = [] })
            es
            e
            post).log_file,
      )
  unfolding frame
  body_written s o2 post es e h =
      append_over v (header_file v s es e (o2 ++ post)) (layout v es ++ le32 (length (body v e))) o2
        post (body v e) (sym (append_assoc (layout v es) (le32 (length (body v e))) (o2 ++ post)))
        (sym (length-append (layout v es) (le32 (length (body v e))))) (sym h)
      ∙ λ i. (
        ok (length (layout v es ++ le32 (length (body v e)))),
        record s.log_file { mapped = same i; write_position = far i },
      )
    where
      same :
          (layout v es ++ le32 (length (body v e))) ++ (body v e ++ post)
          ≡ layout v es ++ ((le32 (length (body v e)) ++ body v e) ++ post)
      same =
          append_assoc (layout v es) (le32 (length (body v e))) (body v e ++ post)
          ∙ ap (λ t. layout v es ++ t)
              (sym (append_assoc (le32 (length (body v e))) (body v e) post))

      far :
          length (layout v es ++ le32 (length (body v e))) + length (body v e)
          ≡ length (layout v es) + length (le32 (length (body v e)) ++ body v e)
      far = omega (
        arith,
        length-append (layout v es) (le32 (length (body v e))),
        length-append (le32 (length (body v e))) (body v e),
      )

  append_record_lem :
      (s : Segment) (ix : RwFile) (o1 o2 post : List ℕ) (es : List Entry) (e : Entry)
      → IsHealthy v
      → Filled v s ix (o1 ++ (o2 ++ post)) es
      → length o1 ≡ 4
      → length o2 ≡ length (body v e)
      → length (layout v es) + length (frame v e) ≤ 2 ^ 32
      → append_record v (record_of v e) e.index s ≡ (ok tt, segment_after v s ix es e post)
  unfolding append_record
  append_record_lem s ix o1 o2 post es e healthy f h1 h2 room = rw (
    mod-eq_of_lt small,
    header_written s ix o1 (o2 ++ post) es e f h1,
    body_written s o2 post es e h2,
    mod-eq_of_lt place,
    append_index_entry_lem v ix (entry_for v es e) s.log_index healthy f.indexed,
  )
    where
      small : length (body v e) < 2 ^ 32
      small = omega (arith, length-frame v e)

      place : length (layout v es) < 2 ^ 32
      place = omega (arith, length-frame v e)

  Filled-append :
      (s : Segment) (ix : RwFile) (free post : List ℕ) (es : List Entry) (e : Entry)
      → Filled v s ix free es
      → Filled v (segment_after v s ix es e post) (index_after v ix es e) post (es ++ e ∷ [])
  unfolding layout
  Filled-append s ix free post es e f = record {
    contents = rw (layout-append v es (e ∷ []), append-nil, append_assoc);
    written =
        rw (layout-append v es (e ∷ []), append-nil)
          (sym (length-append (layout v es) (frame v e)));
    indexed = refl;
    entries = rw (f.entries, index_of-append v 0 es (e ∷ []), zero-add);
    index_file =
        rw (index_of-append v 0 es (e ∷ []), zero-add, index_bytes-append, append-nil)
          (sym (append_assoc ix.file ix.pending (marshal (entry_for v es e)))
            ∙ ap (λ t. t ++ marshal (entry_for v es e)) f.index_file);
  }

  -- A run of records, one after another.
  pub append_each_lem :
      (s : Segment) (ix : RwFile) (free : List ℕ) (es new : List Entry) (start : ℕ)
      → IsHealthy v
      → Filled v s ix free es
      → Consecutive start new
      → start + length new < 2 ^ 64
      → length (layout v es) + length free ≤ 2 ^ 32
      → length (layout v new) ≤ length free
      → (t : Segment) × (jx : RwFile) × (append_each v (map (record_of v) new) start s ≡ (ok tt, t))
        × Filled v t jx (drop (length (layout v new)) free) (es ++ new)
        × (t.first_index ≡ s.first_index)
        × (t.last_index ≡ s.last_index)
        × (t.status ≡ s.status)
        × (t.log_file.max_bytes ≡ s.log_file.max_bytes)
  unfolding append_each layout
  append_each_lem s ix free es [] start healthy f c b a r = (
    s,
    ix,
    refl,
    subst (λ l. Filled v s ix free l) (sym (append-nil es)) f,
    refl,
    refl,
    refl,
    refl,
  )
  append_each_lem s ix free es (e ∷ new) start healthy f c b a r =
      let (t, jx, runs, filled, same_first, same_last, same_status, same_max) =
        append_each_lem (segment_after v s ix es e post) (index_after v ix es e) post (es ++ e ∷ [])
          new (suc start) healthy (Filled-append s ix free post es e f) c.1 (omega arith)
          (omega (arith, sizes, grown)) (omega (arith, sizes)) in
      (
        t,
        jx,
        rw (one, mod-eq_of_lt wrap) (rw add-one runs),
        subst₂ (λ p q. Filled v t jx p q) rest_lem (append_assoc es (e ∷ []) new) filled,
        same_first,
        same_last,
        same_status,
        same_max,
      )
    where
      n : ℕ
      n = length (body v e)

      post : List ℕ
      post = drop (4 + n) free

      sizes :
          (length (layout v (e ∷ new)) ≡ 4 + n + length (layout v new))
          × (length post ≡ length free - (4 + n))
          × (length (frame v e) ≡ 4 + n)
      sizes = (
        omega (arith, length-append (frame v e) (layout v new), length-frame v e),
        length-drop (4 + n) free,
        length-frame v e,
      )

      grown : length (layout v (es ++ e ∷ [])) ≡ length (layout v es) + (4 + n)
      grown = omega (
        arith,
        ap length (layout-append v es (e ∷ [])),
        length-append (layout v es) (layout v (e ∷ [])),
        ap length (append-nil (frame v e)),
        length-frame v e,
      )

      wrap : start + 1 < 2 ^ 64
      wrap = omega arith

      one : append_record v (record_of v e) start s ≡ (ok tt, segment_after v s ix es e post)
      one =
          subst (λ k. append_record v (record_of v e) k s ≡ (ok tt, segment_after v s ix es e post))
            c.0
            (append_record_lem s ix (take 4 free) (take n (drop 4 free)) post es e healthy
              (subst (λ l. Filled v s ix l es) (split 4 n free) f)
              (omega (arith, length-take 4 free, sizes))
              (omega (arith, length-take n (drop 4 free), length-drop 4 free, sizes))
              (omega (arith, sizes)))

      rest_lem : drop (length (layout v new)) post ≡ drop (length (layout v (e ∷ new))) free
      rest_lem =
          drop-drop (length (layout v new)) (4 + n) free ∙ ap (λ k. drop k free) (sym sizes.0)
