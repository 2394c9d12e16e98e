-- ===== src/Storage/Segment/Recover.antt =====
-- Rebuilding the index of a segment from its log file after a crash.
use mathlib.Core.Path.{subst}
use native.Mathlib.Nat.{mod-eq_of_lt}
use kingbus.Common.{
  ℕ, zero, suc, ◌+◌, ◌-◌, ◌%◌, ◌^◌, ◌≤◌, ◌<◌, ◌≡◌, refl, sym, ap, ◌∙◌, false, some, List, [], ◌∷◌,
  ◌++◌, arith, append_assoc, append-nil, ok, length, length-append, length-replicate, replicate,
  leb, ltb, ==_refl, ==_ne, inl, inr, Bool-cases, le→ltb, slice, slice_lem, slice-at,
}
use kingbus.Storage.Env.{Env, Entry, record_of, IsCodec, IsHealthy}
use kingbus.Storage.Bytes.{of_le32-le32}
use kingbus.Storage.MmapFile.{MmapFile}
use kingbus.Storage.MmapFile.Frames.{
  body, frame, layout, length-frame, read_length_field, read_body_bytes, length-le-layout,
}
use kingbus.Storage.IndexFile.{Index, RwFile, rw_index, new_index, marshal}
use kingbus.Storage.IndexFile.Codec.{append_index_entry_lem}
use kingbus.Storage.Segment.{Segment, sound_entry, rebuild_loop, rebuild_index}
use kingbus.Storage.Segment.Represents.{index_of, index_bytes, Holds}

sound_body : (v : Env) (e : Entry) → IsCodec v → sound_entry v (body v e) ≡ some e
unfolding sound_entry record_of
sound_body v e c =
    rw (==_ne (length (body v e)) 0 (omega (arith, some_body)), c.record_round_trip)
      (rw ==_refl (c.entry_round_trip e))
  where
    some_body : 0 < length (body v e)
    some_body = c.record_nonempty (record_of v e)

-- The index with the entries of more records, whose bytes are with the writer.
abbrev with_records : Env → RwFile → ℕ → List Entry → RwFile
with_records v ix p es = record ix {
  entries = ix.entries ++ index_of v p es;
  pending = ix.pending ++ index_bytes (index_of v p es);
}

zeros_split : (k : ℕ) → 4 ≤ k → replicate {A = ℕ} k 0 ≡ 0 ∷ 0 ∷ 0 ∷ 0 ∷ replicate (k - 4) 0
zeros_split zero h = absurd (omega arith)
zeros_split (suc zero) h = absurd (omega arith)
zeros_split (suc (suc zero)) h = absurd (omega arith)
zeros_split (suc (suc (suc zero))) h = absurd (omega arith)
zeros_split (suc (suc (suc (suc k)))) h =
    ap (λ n. 0 ∷ 0 ∷ 0 ∷ 0 ∷ replicate {A = ℕ} n 0) (omega arith)

module _ (v : Env) (f : MmapFile) (size : ℕ) where
  stops_at_zeros :
      (fuel k : ℕ) (pre : List ℕ) (x : Index)
      → length f.mapped ≡ size
      → f.mapped ≡ pre ++ replicate k 0
      → rebuild_loop v f size fuel (length pre) x ≡ (ok tt, x)
  unfolding rebuild_loop
  stops_at_zeros zero k pre x s m = refl
  stops_at_zeros (suc fuel) k pre x s m = elim (Bool-cases (leb size (length pre + 4))) [
    | inl full ↦ rw full
    | inr more ↦ rw (
      more,
      no_length (not_full more),
      le→ltb size (length pre + 4 + 0) (omega (arith, not_full more)),
      slice_lem f.mapped (length pre + 4) 0 (omega (arith, not_full more)),
    )
  ]
    where
      not_full : leb size (length pre + 4) ≡ false → length pre + 4 < size
      not_full h = ground arith

      room : k ≡ length f.mapped - length pre
      room =
          omega
            (arith, ap length m, length-append pre (replicate k 0), length-replicate {A = ℕ} k 0)

      no_length :
          length pre + 4 < size
          → slice f.mapped (length pre) (length pre + 4) ≡ ok (0 ∷ 0 ∷ 0 ∷ 0 ∷ [])
      no_length h =
          slice-at f.mapped pre (0 ∷ 0 ∷ 0 ∷ 0 ∷ []) (replicate (k - 4) 0) (length pre)
            (length pre + 4) (m ∙ ap (λ t. pre ++ t) (zeros_split k (omega (arith, room)))) refl
            refl

  no_records : (ix : RwFile) (p : ℕ) → rw_index (with_records v ix p []) ≡ rw_index ix
  no_records ix p = rw (append-nil ix.entries, append-nil ix.pending)

  one_more :
      (ix : RwFile) (p : ℕ) (e : Entry) (es : List Entry)
      → with_records v (with_records v ix p (e ∷ [])) (p + length (frame v e)) es
        ≡ with_records v ix p (e ∷ es)
  unfolding frame marshal
  one_more ix p e es = rw (append_assoc, append_assoc)

  rebuild_loop_lem :
      (fuel k : ℕ) (pre : List ℕ) (es : List Entry) (x : Index) (ix : RwFile)
      → IsCodec v
      → IsHealthy v
      → length f.mapped ≡ size
      → size ≤ 2 ^ 32
      → f.mapped ≡ pre ++ (layout v es ++ replicate k 0)
      → length es ≤ fuel
      → x ≡ rw_index ix
      → rebuild_loop v f size fuel (length pre) x
        ≡ (ok tt, rw_index (with_records v ix (length pre) es))
  unfolding rebuild_loop layout
  rebuild_loop_lem fuel k pre [] x ix codec healthy s b m h q =
      stops_at_zeros fuel k pre x s m ∙ ap (λ i. (ok tt, i)) (q ∙ sym (no_records ix (length pre)))
  rebuild_loop_lem zero k pre (e ∷ es) x ix codec healthy s b m h q = absurd (omega arith)
  rebuild_loop_lem (suc fuel) k pre (e ∷ es) x ix codec healthy s b m h q =
      let here = m ∙ ap (λ t. pre ++ t) (append_assoc (frame v e) (layout v es) (replicate k 0)) in
      let onward =
        rebuild_loop_lem fuel k (pre ++ frame v e) es
          (rw_index (with_records v ix (length pre) (e ∷ [])))
          (with_records v ix (length pre) (e ∷ [])) codec healthy s b
          (here ∙ sym (append_assoc pre (frame v e) (layout v es ++ replicate k 0))) (omega arith)
          refl in
      rw
        (
          more,
          read_length_field v f pre (layout v es ++ replicate k 0) e here,
          of_le32-le32 (length (body v e)) small,
          inside,
          read_body_bytes v f pre (layout v es ++ replicate k 0) e here,
          sound_body v e codec,
          unmoved,
          append_index_entry_lem v ix (record { raft_index = e.index; file_position = length pre })
              x healthy q,
        )
        (subst
          (λ p.
            rebuild_loop v f size fuel p (rw_index (with_records v ix (length pre) (e ∷ [])))
            ≡ (ok tt, rw_index (with_records v ix (length pre) (e ∷ es))))
          behind
          (onward
            ∙ ap (λ i. (ok tt, rw_index i))
                (ap (λ p. with_records v (with_records v ix (length pre) (e ∷ [])) p es)
                    (length-append pre (frame v e))
                  ∙ one_more ix (length pre) e es)))
    where
      fits : length pre + length (frame v e) ≤ size
      fits = omega (
        arith,
        s,
        ap length m,
        length-append pre (layout v (e ∷ es) ++ replicate k 0),
        length-append (layout v (e ∷ es)) (replicate k 0),
        length-append (frame v e) (layout v es),
      )

      some_body : 0 < length (body v e)
      some_body = codec.record_nonempty (record_of v e)

      more : leb size (length pre + 4) ≡ false
      more = ground (arith, fits, some_body, length-frame v e)

      small : length (body v e) < 2 ^ 32
      small = omega (arith, fits, length-frame v e)

      inside : ltb size (length pre + 4 + length (body v e)) ≡ false
      inside =
          le→ltb size (length pre + 4 + length (body v e)) (omega (arith, fits, length-frame v e))

      unmoved : (length pre + 4 - 4) % 2 ^ 32 ≡ length pre
      unmoved =
          ap (λ k. k % 2 ^ 32) {x = length pre + 4 - 4} {y = length pre} (omega arith)
          ∙ mod-eq_of_lt (omega (arith, fits, some_body, length-frame v e))

      behind : length (pre ++ frame v e) ≡ length pre + 4 + length (body v e)
      behind = omega (arith, length-append pre (frame v e), length-frame v e)

module _ (v : Env) where
  -- The log file of a segment that holds entries and is otherwise zero, as a new or truncated one
  -- is, gives back its index, where no call fails: rebuilding from the file alone yields the
  -- entries of the index that was kept while they were appended, and the bytes that its writer and
  -- its file held together. The file has the size of a segment, at most 2 ^ 32 bytes, and the
  -- codecs are round trips.
  pub rebuild_index-Holds :
      (s : Segment) (ix : RwFile) (es : List Entry) (k : ℕ)
      → IsCodec v
      → IsHealthy v
      → Holds v s ix (replicate k 0) es
      → rebuild_index v s.log_file (length s.log_file.mapped)
        ≡ ok (
            rw_index (record {
              name = s.log_file.name;
              entries = ix.entries;
              pending = ix.file ++ ix.pending;
              file = [];
            }))
  unfolding rebuild_index
  rebuild_index-Holds s ix es k codec healthy h = rw (
    healthy.no_failure,
    rebuild_loop_lem v s.log_file (length s.log_file.mapped) (suc (length s.log_file.mapped)) k []
        es (new_index s.log_file.name)
        (record { name = s.log_file.name; entries = []; pending = []; file = [] }) codec healthy
        refl small h.contents enough (unfold new_index in refl),
    h.entries,
    h.index_file,
  )
    where
      small : length s.log_file.mapped ≤ 2 ^ 32
      small = omega (arith, ap length h.contents, h.addressable)

      enough : length es ≤ suc (length s.log_file.mapped)
      enough = omega (
        arith,
        ap length h.contents,
        length-append (layout v es) (replicate k 0),
        length-le-layout v es,
      )
