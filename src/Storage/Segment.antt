-- ===== src/Storage/Segment.antt =====
-- storage/segment.go: a segment of the raft log, a mapped file of records with its index.
pub mod Represents
pub mod Write
pub mod Append
pub mod Read
pub mod Positions
pub mod Truncate
pub mod Recover
use kingbus.Common.{
  ℕ, zero, suc, ◌+◌, ◌-◌, ◌%◌, ◌^◌, Bool, true, false, not, ◌&&◌, ◌||◌, Option, none, some, List,
  [], ◌∷◌, length, ltb, leb, ◌==◌, if◌then◌else◌, Error, args_illegal, not_writable, not_continuous,
  closed, Result, ok, err, panic, slice,
}
use kingbus.Common
use kingbus.Storage.Env.{
  Env, Entry, Record, FileName, in_progress, read_only, remove_index, Exec, ◌>>=◌, ◌>>◌, pure,
  raise, lift, get, put, must,
}
use kingbus.Storage.Bytes.{le32, of_le32}
use kingbus.Storage.MmapFile
use kingbus.Storage.MmapFile.{MmapFile, record_length_size}
use kingbus.Storage.IndexFile
use kingbus.Storage.IndexFile.{
  Index, IndexEntry, SegmentStatus, segment_read_only, segment_rdwr, segment_closed,
}

pub record Segment : Type 0 where
  pub first_index : ℕ  -- uint64
  pub last_index : ℕ  -- uint64
  pub log_file : MmapFile
  pub log_index : Index
  pub status : SegmentStatus

unfoldable pub new_segment : FileName → ℕ → Segment
unfolding MmapFile.new_mmap_file IndexFile.new_index
new_segment name size = record {
  first_index = 0;
  last_index = 0;
  log_file = MmapFile.new_mmap_file name size;
  log_index = IndexFile.new_index name;
  status = segment_rdwr;
}

-- An operation on one of the two files, as one on the segment.
abbrev pub on_log : {A : Type 0} → Exec MmapFile A → Exec Segment A
on_log m s = let (r, f) = m s.log_file in (r, record s { log_file = f })

abbrev pub on_index : {A : Type 0} → Exec Index A → Exec Segment A
on_index m s = let (r, x) = m s.log_index in (r, record s { log_index = x })

abbrev pub is_rdwr : SegmentStatus → Bool
is_rdwr segment_rdwr = true
is_rdwr _ = false

abbrev pub is_closed : SegmentStatus → Bool
is_closed segment_closed = true
is_closed _ = false

-- The number of entries that readRaftEntries wants, as an int, is below zero: the slice for them
-- cannot be made.
unfoldable pub below_zero : ℕ → ℕ → Bool
below_zero first last = leb (2 ^ 63) ((last + 2 ^ 64 - first + 1) % 2 ^ 64)

unfoldable pub need_rolling : Segment → ℕ → Bool
need_rolling s size = ltb s.log_file.max_bytes (s.log_file.write_position + size)

-- log.Fatalf on an error
abbrev pub fatal : {S A : Type 0} → Exec S A → Exec S A
fatal m s = let (r, t) = m s in (elim r [ ok a ↦ ok a | err _ ↦ panic | panic ↦ panic ], t)

-- The new range; the last index is startIndex + uint64(len(records) - 1).
unfoldable pub extend_range : ℕ → ℕ → Segment → Segment
extend_range n start s =
    let last = (start + (n + 2 ^ 64 - 1) % 2 ^ 64) % 2 ^ 64 in
    record s {
      first_index = if s.first_index == 0 then start else s.first_index;
      last_index = if ltb s.last_index last then last else s.last_index;
    }

module _ (v : Env) where
  unfoldable pub append_record : Record → ℕ → Exec Segment (Unit {0})
  unfolding le32 MmapFile.append IndexFile.append_index_entry
  append_record r raft_index = do
    let buf = v.marshal_record r
    start ← on_log (MmapFile.append (le32 (length buf % 2 ^ 32)))
    on_log (MmapFile.append buf)
    on_index (
        IndexFile.append_index_entry v
          (record { raft_index = raft_index; file_position = start % 2 ^ 32 }))

  -- The loop over the records, at startIndex + i.
  unfoldable pub append_each : List Record → ℕ → Exec Segment (Unit {0})
  append_each [] i = pure tt
  append_each (r ∷ rs) i = append_record r i >> append_each rs ((i + 1) % 2 ^ 64)

  unfoldable pub append_records : List Record → ℕ → Exec Segment (Unit {0})
  unfolding append_each extend_range MmapFile.sync
  append_records records start = do
    s ← get
    if not (is_rdwr s.status)
        then raise not_writable
        else if not (s.last_index == 0) && not ((s.last_index + 1) % 2 ^ 64 == start)
        then raise not_continuous
        else do
          append_each records start
          on_log (MmapFile.sync v)
          t ← get
          put (extend_range (length records) start t)

  -- The loop of readRaftEntries, with what has been read so far. A round moves on by four bytes
  -- at least, so more rounds than the file has bytes have left it, which is a panic.
  unfoldable pub read_loop : Segment → ℕ → ℕ → ℕ → ℕ → ℕ → Result (List Entry × ℕ)
  unfolding MmapFile.read_raft_entry
  read_loop s last max_size zero position read_size = panic
  read_loop s last max_size (suc fuel) position read_size =
      Common.◌>>=◌ (MmapFile.read_raft_entry v s.log_file position) λ r.
        let (entry, next) = r in
        let size = (read_size + length (v.marshal_entry entry)) % 2 ^ 64 in
        let rest = read_loop s last max_size fuel next size in
        if ltb max_size size || (entry.index == last || entry.index == s.last_index)
        then ok (entry ∷ [], size)
        else Common.◌>>=◌ rest λ more. let (entries, total) = more in ok (entry ∷ entries, total)

  -- The entries and the size that remains of `max_size`.
  unfoldable pub read_raft_entries : Segment → ℕ → ℕ → ℕ → Result (List Entry × ℕ)
  unfolding read_loop IndexFile.get_raft_entry_position below_zero
  read_raft_entries s first last max_size =
      if is_closed s.status
      then err closed
      else if below_zero first last
      then panic
      else Common.◌>>=◌ (IndexFile.get_raft_entry_position s.log_index first s.first_index s.status)
          λ position.
            Common.◌>>=◌ (read_loop s last max_size (suc (length s.log_file.mapped)) position 0)
              λ r.
                let (entries, size) = r in
                if ltb max_size size then ok (entries, 0) else ok (entries, max_size - size)

  unfoldable pub close : Exec Segment (Unit {0})
  unfolding MmapFile.close IndexFile.close
  close = do
    s ← get
    put (record s { status = segment_closed; first_index = 0; last_index = 0 })
    fatal (on_log (MmapFile.close v))
    fatal (on_index (IndexFile.close v))

  unfoldable pub remove : Exec Segment (Unit {0})
  unfolding MmapFile.remove IndexFile.remove
  remove = do
    s ← get
    put (record s { status = segment_closed; first_index = 0; last_index = 0 })
    on_log (MmapFile.remove v)
    on_index (IndexFile.remove v)

  -- The index file, and for a read-only segment the names and the status.
  truncate_index_of : ℕ → Segment → Exec Segment (Unit {0})
  unfolding IndexFile.truncate_suffix MmapFile.rename
  truncate_index_of i s =
      if is_rdwr s.status
      then on_index (IndexFile.truncate_suffix v i s.first_index segment_rdwr)
      else do
        on_log (MmapFile.rename v (in_progress s.first_index))
        on_index (IndexFile.truncate_suffix v i s.first_index segment_read_only)
        t ← get
        put (record t { status = segment_rdwr })

  unfoldable pub truncate_suffix : ℕ → Exec Segment (Unit {0})
  unfolding truncate_index_of MmapFile.truncate_suffix IndexFile.get_raft_entry_position
  truncate_suffix i = do
    s ← get
    position ← lift (IndexFile.get_raft_entry_position s.log_index i s.first_index s.status)
    on_log (MmapFile.truncate_suffix v position)
    truncate_index_of i s
    t ← get
    put (
        if i == t.first_index
        then record t { first_index = 0; last_index = 0 }
        else record t { last_index = i - 1 })

  unfoldable pub change_to_readonly : Exec Segment (Unit {0})
  unfolding MmapFile.rename IndexFile.change_to_readonly
  change_to_readonly = do
    s ← get
    if not (is_rdwr s.status) then raise args_illegal else do
      on_log (MmapFile.rename v (read_only s.first_index s.last_index))
      on_index (IndexFile.change_to_readonly v)
      t ← get
      put (record t { status = segment_read_only })

  -- What the loop of rebuildIndex makes of the bytes of one record: its entry, if they are sound.
  unfoldable pub sound_entry : List ℕ → Option Entry
  sound_entry buf = if length buf == 0 then none else elim (v.unmarshal_record buf) [
    | none ↦ none
    | some r ↦ if v.checksum r.content == r.crc then v.unmarshal_entry r.content else none
  ]

  -- The end of a round: the entry goes to the index and the loop goes on, or the loop ends.
  unfoldable pub index_sound : Option Entry → ℕ → Exec Index (Unit {0}) → Exec Index (Unit {0})
  unfolding IndexFile.append_index_entry
  index_sound none start next = pure tt
  index_sound (some e) start next = do
    fatal (
        IndexFile.append_index_entry v
          (record { raft_index = e.index; file_position = (start - record_length_size) % 2 ^ 32 }))
    next

  -- The loop of rebuildIndex. A round moves on by five bytes at least, so after more rounds than
  -- the file has bytes the first test has ended it.
  unfoldable pub rebuild_loop : MmapFile → ℕ → ℕ → ℕ → Exec Index (Unit {0})
  unfolding of_le32 sound_entry index_sound
  rebuild_loop f size zero position = pure tt
  rebuild_loop f size (suc fuel) position =
      if leb size (position + record_length_size) then pure tt else do
        len ← lift (slice f.mapped position (position + record_length_size))
        let start = position + record_length_size
        let end = start + of_le32 len
        if leb size start || ltb size end then pure tt else do
          buf ← lift (slice f.mapped start end)
          index_sound (sound_entry buf) start (rebuild_loop f size fuel end)

  unfoldable pub rebuild_index : MmapFile → ℕ → Result Index
  unfolding rebuild_loop IndexFile.new_index
  rebuild_index f size =
      if not (v.succeeds (remove_index f.name))
      then panic
      else let (r, x) = rebuild_loop f size (suc size) 0 (IndexFile.new_index f.name) in
        Common.◌>>=◌ r λ _. ok x

  -- openSegment, over the contents of the log and index files and the size of a segment.
  open_rdwr : ℕ → MmapFile → Index → Result Segment
  unfolding of_le32 MmapFile.set_position IndexFile.get_last_raft_entry
  open_rdwr first f x = Common.◌>>=◌ (IndexFile.get_last_raft_entry x segment_rdwr) λ e.
      Common.◌>>=◌ (slice f.mapped e.file_position (e.file_position + record_length_size)) λ len.
        ok (record {
          first_index = first;
          last_index = e.raft_index;
          log_file = MmapFile.set_position (e.file_position + of_le32 len + record_length_size) f;
          log_index = x;
          status = segment_rdwr;
        })

  -- A name of the wrong pattern does not scan, which is fatal.
  unfoldable pub open_segment :
      FileName → SegmentStatus → Bool → ℕ → List ℕ → List ℕ → Result Segment
  unfolding open_rdwr rebuild_index MmapFile.open_mmap_file IndexFile.open_index
  open_segment (read_only first last) segment_read_only recover size log index =
      Common.◌>>=◌ (IndexFile.open_index (read_only first last) index segment_read_only) λ x.
        ok (record {
          first_index = first;
          last_index = last;
          log_file = MmapFile.open_mmap_file (read_only first last) log;
          log_index = x;
          status = segment_read_only;
        })
  open_segment (in_progress first) segment_rdwr recover size log index =
      let f = MmapFile.open_mmap_file (in_progress first) log in
      Common.◌>>=◌
        (if recover
          then rebuild_index f size
          else IndexFile.open_index (in_progress first) index segment_rdwr)
        λ x. open_rdwr first f x
  open_segment _ _ recover size log index = panic
