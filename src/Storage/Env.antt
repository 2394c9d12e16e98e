-- ===== src/Storage/Env.antt =====
-- What the storage uses and does not implement: the protobuf codecs, crc32 and the system calls.
use kingbus.Common.{
  ℕ, ◌<◌, ◌≡◌, Bool, true, Option, some, List, length, if◌then◌else◌, os_error, ok, err,
}
pub use kingbus.Exec.{Exec, continue, ◌>>=◌, ◌>>◌, pure, raise, lift, get, put, must}

-- raftpb.Entry; `Size()` is the length of its encoding.
pub record Entry : Type 0 where
  pub term : ℕ  -- uint64
  pub index : ℕ  -- uint64
  pub entry_type : ℕ
  pub payload : List ℕ

-- storagepb.Record
pub record Record : Type 0 where
  pub crc : ℕ  -- uint32
  pub content : List ℕ

-- The names of a segment's log and index file, by their patterns.
pub data FileName : Type 0 where
  in_progress : ℕ → FileName
  read_only : ℕ → ℕ → FileName

pub data Call : Type 0 where
  sync_range : FileName → ℕ → ℕ → Call
  write_index flush_index close_index remove_index close_log remove_log : FileName → Call
  truncate_index : FileName → ℕ → Call
  rename_log rename_index : FileName → FileName → Call

pub record Env : Type 0 where
  pub marshal_entry : Entry → List ℕ
  pub unmarshal_entry : List ℕ → Option Entry
  pub marshal_record : Record → List ℕ
  pub unmarshal_record : List ℕ → Option Record
  pub checksum : List ℕ → ℕ
  pub succeeds : Call → Bool

-- What entriesToRecords of storage/disk_storage.go makes of one entry.
unfoldable pub record_of : Env → Entry → Record
record_of v e = record { crc = v.checksum (v.marshal_entry e); content = v.marshal_entry e }

-- What the protobuf encoding guarantees; a record is never encoded to nothing, since its fields
-- are always written.
pub record IsCodec (v : Env) : Type 0 where
  pub entry_round_trip : (e : Entry) → v.unmarshal_entry (v.marshal_entry e) ≡ some e
  pub record_round_trip : (r : Record) → v.unmarshal_record (v.marshal_record r) ≡ some r
  pub record_nonempty : (r : Record) → 0 < length (v.marshal_record r)

-- No system call fails.
pub record IsHealthy (v : Env) : Type 0 where
  pub no_failure : (c : Call) → v.succeeds c ≡ true

abbrev pub syscall : {S : Type 0} → Env → Call → Exec S (Unit {0})
syscall v c s = (if v.succeeds c then ok tt else err os_error, s)
