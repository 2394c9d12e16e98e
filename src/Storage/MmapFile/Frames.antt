-- ===== src/Storage/MmapFile/Frames.antt =====
-- The bytes of a log file: each record behind its length, one after another.
use kingbus.Common.{
  ℕ, ◌+◌, ◌-◌, ◌*◌, ◌^◌, ◌≤◌, ◌<◌, ◌≡◌, refl, ap, ◌∙◌, List, [], ◌∷◌, ◌++◌, append_assoc, arith,
  length, length-append, length-replicate, replicate, le→ltb, ok, slice, slice-at, ==_refl,
  copy_at-middle,
}
use kingbus.Storage.Env.{Env, Entry, record_of, IsCodec, IsHealthy}
use kingbus.Storage.Bytes.{le32, length-le32, of_le32-le32}
use kingbus.Storage.MmapFile.{MmapFile, read_raft_entry, append, truncate_suffix}

module _ (v : Env) where
  abbrev pub body : Entry → List ℕ
  body e = v.marshal_record (record_of v e)

  unfoldable pub frame : Entry → List ℕ
  frame e = le32 (length (body e)) ++ body e

  unfoldable pub layout : List Entry → List ℕ
  layout [] = []
  layout (e ∷ es) = frame e ++ layout es

  pub length-frame : (e : Entry) → length (frame e) ≡ 4 + length (body e)
  unfolding frame
  length-frame e =
      omega (arith, length-append (le32 (length (body e))) (body e), length-le32 (length (body e)))

  pub layout-append : (es fs : List Entry) → layout (es ++ fs) ≡ layout es ++ layout fs
  unfolding layout
  layout-append [] fs = refl
  layout-append (e ∷ es) fs = rw (layout-append es fs, append_assoc)

  pub read_length_field :
      (f : MmapFile) (pre post : List ℕ) (e : Entry)
      → f.mapped ≡ pre ++ (frame e ++ post)
      → slice f.mapped (length pre) (length pre + 4) ≡ ok (le32 (length (body e)))
  unfolding frame
  read_length_field f pre post e m =
      slice-at f.mapped pre (le32 (length (body e))) (body e ++ post) (length pre) (length pre + 4)
        (m ∙ rw append_assoc) refl (omega (arith, length-le32 (length (body e))))

  pub read_body_bytes :
      (f : MmapFile) (pre post : List ℕ) (e : Entry)
      → f.mapped ≡ pre ++ (frame e ++ post)
      → slice f.mapped (length pre + 4) (length pre + 4 + length (body e)) ≡ ok (body e)
  unfolding frame
  read_body_bytes f pre post e m =
      slice-at f.mapped (pre ++ le32 (length (body e))) (body e) post (length pre + 4)
        (length pre + 4 + length (body e)) (m ∙ rw (append_assoc, append_assoc))
        (omega (arith, split)) (omega (arith, split))
    where
      split : length (pre ++ le32 (length (body e))) ≡ length pre + 4
      split =
          omega (arith, length-append pre (le32 (length (body e))), length-le32 (length (body e)))

  -- A record that stands in the file is read back, with the position behind it, where the codecs
  -- are round trips and its length is a uint32.
  pub read_frame :
      (f : MmapFile) (pre post : List ℕ) (e : Entry)
      → IsCodec v
      → f.mapped ≡ pre ++ (frame e ++ post)
      → length (body e) < 2 ^ 32
      → read_raft_entry v f (length pre) ≡ ok (e, length pre + length (frame e))
  unfolding read_raft_entry record_of
  read_frame f pre post e c m h =
      rw
        (
          read_length_field f pre post e m,
          of_le32-le32 (length (body e)) h,
          read_body_bytes f pre post e m,
          c.record_round_trip,
          ==_refl,
          c.entry_round_trip,
        )
        (ap (λ (k : ℕ). ok (e, k)) (omega (arith, length-frame e)))

  -- Writing at the end of `pre` over bytes that are there.
  pub append_over :
      (f : MmapFile) (pre old post bs : List ℕ)
      → f.mapped ≡ pre ++ (old ++ post)
      → f.write_position ≡ length pre
      → length bs ≡ length old
      → append bs f ≡ (
        ok (length pre),
        record f { mapped = pre ++ (bs ++ post); write_position = length pre + length bs },
      )
  unfolding append
  append_over f pre old post bs m w h = rw (m, w, copy_at-middle pre old bs post h)

  -- Each record takes four bytes at least.
  pub length-le-layout : (es : List Entry) → 4 * length es ≤ length (layout es)
  unfolding layout
  length-le-layout [] = omega arith
  length-le-layout (e ∷ es) =
      omega (arith, length-le-layout es, length-append (frame e) (layout es), length-frame e)

  -- Cutting the file behind `pre` zeroes what was written there.
  pub truncate_over :
      (f : MmapFile) (pre old post : List ℕ)
      → IsHealthy v
      → f.mapped ≡ pre ++ (old ++ post)
      → f.write_position ≡ length pre + length old
      → truncate_suffix v (length pre) f ≡ (
        ok tt,
        record f {
          mapped = pre ++ (replicate (length old) 0 ++ post);
          write_position = length pre;
          sync_position = length pre;
        },
      )
  unfolding truncate_suffix
  truncate_over f pre old post healthy m w = rw (
    w,
    le→ltb (length pre + length old) (length pre) (omega arith),
    cut,
    m,
    copy_at-middle pre old (replicate (length old) 0) post (length-replicate (length old) 0),
    healthy.no_failure,
  )
    where
      cut : length pre + length old - length pre ≡ length old
      cut = omega arith
