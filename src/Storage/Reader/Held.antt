-- ===== src/Storage/Reader/Held.antt =====
-- The reader goes through the entries that the last segment holds.
use native.Mathlib.Nat.{mod-eq_of_lt}
use kingbus.Common.{
  ℕ, ◌+◌, ◌-◌, ◌%◌, ◌^◌, ◌≤◌, ◌<◌, ◌≡◌, ap, ◌∙◌, List, [], ◌∷◌, ◌++◌, arith, ok, ◌>>=◌,
}
use kingbus.Storage.Env.{Env, Entry, IsCodec}
use kingbus.Storage.IndexFile.{RwFile}
use kingbus.Storage.Segment.{Segment}
use kingbus.Storage.Disk.{DiskStorage, first_index, entries}
use kingbus.Storage.Disk.Limit.{total}
use kingbus.Storage.Disk.Replace.{Ends, held_range}
use kingbus.Storage.Disk.Read.{encoded_size, entries-Ends}
use kingbus.Storage.Reader.{first_of, get_next}

module _ {M : Type 0} (v : Env) (d : DiskStorage M) (full : List Segment) (s : Segment)
    (ix : RwFile) (free : List ℕ) (codec : IsCodec v) where
  pub get_next-Ends :
      (pre post : List Entry) (e : Entry)
      → Ends v d full s ix free (pre ++ e ∷ post)
      → first_index d ≤ e.index
      → encoded_size v (e ∷ []) < 2 ^ 64
      → total (e ∷ []) < 2 ^ 64
      → get_next v d (record { index_read_at = e.index })
        ≡ ok (e, record { index_read_at = e.index + 1 })
  unfolding get_next first_of
  get_next-Ends pre post e h fst size data_size =
      let range = held_range v s ix free pre post e h.holds in
      let step : (e.index + 1) % 2 ^ 64 ≡ e.index + 1 =
        mod-eq_of_lt (omega (arith, range.2, h.holds.bounded)) in
      let one : entries v d e.index (e.index + 0 + 1) (2 ^ 64 - 1) ≡ ok (e ∷ []) =
        entries-Ends v d full s ix free pre [] post e (2 ^ 64 - 1) codec h fst (omega (arith, size))
          (omega (arith, data_size)) (omega arith) in
      let read : entries v d e.index ((e.index + 1) % 2 ^ 64) (2 ^ 64 - 1) ≡ ok (e ∷ []) =
        ap (λ hi. entries v d e.index hi (2 ^ 64 - 1)) {x = (e.index + 1) % 2 ^ 64}
          {y = e.index + 0 + 1} (omega (arith, step))
        ∙ one in
      ap (λ r. r >>= first_of (record { index_read_at = e.index })) read
      ∙ ap (λ n. ok (e, record { index_read_at = n })) step
