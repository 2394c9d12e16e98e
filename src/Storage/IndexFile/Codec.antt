-- ===== src/Storage/IndexFile/Codec.antt =====
-- The bytes of index entries, and what the operations of the index do where no call fails.
use kingbus.Common.{
  ℕ, ◌+◌, ◌-◌, ◌*◌, ◌^◌, ◌≤◌, ◌<◌, ◌≡◌, [], ◌∷◌, ◌++◌, arith, length, ok, take, slice-prefix,
  le→ltb, append-nil,
}
use kingbus.Storage.Env.{Env, IsHealthy}
use kingbus.Storage.Bytes.{of_le64-le64, of_le32-le32}
use kingbus.Storage.IndexFile.{
  IndexEntry, RwFile, Index, rw_index, segment_rdwr, index_entry_size, truncate_suffix, marshal,
  unmarshal, append_index_entry,
}

-- An index entry with a raft index that is a uint64 and a position that is a uint32 is decoded
-- from its bytes.
pub unmarshal-marshal :
    (e : IndexEntry) → e.raft_index < 2 ^ 64 → e.file_position < 2 ^ 32 → unmarshal (marshal e) ≡ e
unfolding marshal unmarshal
unmarshal-marshal e hi hp = λ i. record {
  raft_index = of_le64-le64 e.raft_index hi i;
  file_position = of_le32-le32 e.file_position hp i;
}

pub append_index_entry_lem :
    (v : Env) (ix : RwFile) (e : IndexEntry) (x : Index)
    → IsHealthy v
    → x ≡ rw_index ix
    → append_index_entry v e x ≡ (
      ok tt,
      rw_index (record ix { pending = ix.pending ++ marshal e; entries = ix.entries ++ e ∷ [] }),
    )
unfolding append_index_entry
append_index_entry_lem v ix e x h eq = rw (eq, h.no_failure)

pub truncate_suffix_lem :
    (v : Env) (ix : RwFile) (x : Index) (i first n : ℕ)
    → IsHealthy v
    → x ≡ rw_index ix
    → i ≡ first + n
    → n ≤ length ix.entries
    → n * index_entry_size ≤ length (ix.file ++ ix.pending)
    → truncate_suffix v i first segment_rdwr x ≡ (
      ok tt,
      rw_index (record ix {
        entries = take n ix.entries;
        pending = [];
        file = take (n * index_entry_size) (ix.file ++ ix.pending);
      }),
    )
unfolding truncate_suffix
truncate_suffix_lem v ix x i first n h eq e b l = rw (
  eq,
  le→ltb i first (omega arith),
  h.no_failure,
  h.no_failure,
  offset,
  slice-prefix ix.entries n b,
  fits,
  append-nil,
)
  where
    offset : i - first ≡ n
    offset = omega arith

    fits : n * index_entry_size - length (ix.file ++ ix.pending) ≡ 0
    fits = omega arith
