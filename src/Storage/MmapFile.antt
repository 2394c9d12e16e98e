-- ===== src/Storage/MmapFile.antt =====
-- storage/mmap_file.go: a file of fixed size mapped into memory.
pub mod Frames
use kingbus.Common.{
  ℕ, ◌+◌, ◌-◌, List, length, replicate, ltb, ◌==◌, if◌then◌else◌, Error, out_of_bound, Result, ok,
  err, panic, slice, copy_at,
}
use kingbus.Common
use kingbus.Storage.Env.{
  Env, Entry, FileName, sync_range, close_log, remove_log, rename_log, Exec, ◌>>=◌, ◌>>◌, pure,
  raise, lift, get, put, syscall, must,
}
use kingbus.Storage.Bytes.{of_le32, of_le64}

pub record MmapFile : Type 0 where
  pub name : FileName
  pub mapped : List ℕ
  pub write_position : ℕ
  pub sync_position : ℕ
  pub max_bytes : ℕ

abbrev pub record_length_size : ℕ
record_length_size = 4

-- newMmapFile: a preallocated file of zeros.
unfoldable pub new_mmap_file : FileName → ℕ → MmapFile
new_mmap_file name size = record {
  name = name;
  mapped = replicate size 0;
  write_position = 0;
  sync_position = 0;
  max_bytes = size;
}

-- openMmapFile: the file as it stands, with the positions at 0.
unfoldable pub open_mmap_file : FileName → List ℕ → MmapFile
open_mmap_file name contents = record {
  name = name;
  mapped = contents;
  write_position = 0;
  sync_position = 0;
  max_bytes = length contents;
}

unfoldable pub append : List ℕ → Exec MmapFile ℕ
append bs = do
  f ← get
  mapped' ← lift (copy_at f.mapped f.write_position bs)
  put (record f { mapped = mapped'; write_position = f.write_position + length bs })
  pure f.write_position

unfoldable pub set_position : ℕ → MmapFile → MmapFile
set_position p f = record f { write_position = p; sync_position = p }

module _ (v : Env) where
  unfoldable pub sync : Exec MmapFile (Unit {0})
  sync = do
    f ← get
    syscall v (sync_range f.name f.sync_position (f.write_position - f.sync_position))
    put (record f { sync_position = f.write_position })

  unfoldable pub read_raft_entry : MmapFile → ℕ → Result (Entry × ℕ)
  unfolding of_le32
  read_raft_entry f position =
      Common.◌>>=◌ (slice f.mapped position (position + record_length_size)) λ len.
        let start = position + record_length_size in
        let end = start + of_le32 len in
        Common.◌>>=◌ (slice f.mapped start end) λ buf.
          Common.◌>>=◌ (must (v.unmarshal_record buf)) λ r.
            if v.checksum r.content == r.crc
            then Common.◌>>=◌ (must (v.unmarshal_entry r.content)) (λ e. ok (e, end))
            else panic

  -- The bytes from `position` on become zeros, and the next write goes there.
  unfoldable pub truncate_suffix : ℕ → Exec MmapFile (Unit {0})
  truncate_suffix position = do
    f ← get
    if ltb f.write_position position then raise out_of_bound else do
      mapped' ← lift (copy_at f.mapped position (replicate (f.write_position - position) 0))
      put (record f { mapped = mapped' })
      syscall v (sync_range f.name position (f.write_position - position))
      put (record f { mapped = mapped'; write_position = position; sync_position = position })

  unfoldable pub rename : FileName → Exec MmapFile (Unit {0})
  rename name = do f ← get; syscall v (rename_log f.name name); put (record f { name = name })

  unfoldable pub close : Exec MmapFile (Unit {0})
  close = do f ← get; syscall v (close_log f.name)

  unfoldable pub remove : Exec MmapFile (Unit {0})
  unfolding close
  remove = do f ← get; close; syscall v (remove_log f.name)
