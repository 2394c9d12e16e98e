-- ===== src/Storage/IndexFile.antt =====
-- storage/index.go: the index of a segment, which gives the file position of each raft index.
-- A written index keeps its entries in memory, and their bytes partly in the writer's buffer; a
-- read-only one is a mapped file.
pub mod Codec
use kingbus.Common.{
  ℕ, suc, ◌+◌, ◌-◌, ◌*◌, ◌%◌, ◌^◌, ◌&&◌, Option, none, some, List, [], ◌∷◌, ◌++◌, length, take,
  drop, replicate, get_elem?, ltb, ◌==◌, if◌then◌else◌, Error, out_of_bound, Result, ok, err, panic,
  slice,
}
use kingbus.Common
use kingbus.Storage.Env.{
  Env, FileName, in_progress, read_only, write_index, flush_index, close_index, remove_index,
  truncate_index, rename_index, Exec, ◌>>=◌, ◌>>◌, pure, raise, lift, get, put, syscall, must,
}
use kingbus.Storage.Bytes.{le32, le64, of_le32, of_le64}
use kingbus.Storage.MmapFile.{MmapFile, open_mmap_file}

pub record IndexEntry : Type 0 where
  pub raft_index : ℕ  -- uint64
  pub file_position : ℕ  -- uint32

abbrev pub index_entry_size : ℕ
index_entry_size = 12

unfoldable pub marshal : IndexEntry → List ℕ
unfolding le32 le64
marshal e = le64 e.raft_index ++ le32 e.file_position

unfoldable pub unmarshal : List ℕ → IndexEntry
unfolding of_le32 of_le64
unmarshal bs = record { raft_index = of_le64 (take 8 bs); file_position = of_le32 (drop 8 bs) }

pub data SegmentStatus : Type 0 where
  segment_read_only segment_rdwr segment_closed : SegmentStatus

-- `pending` is what the bufio.Writer has not handed to the file.
pub record RwFile : Type 0 where
  pub name : FileName
  pub entries : List IndexEntry
  pub pending : List ℕ
  pub file : List ℕ

pub record Index : Type 0 where
  pub readonly : Option MmapFile
  pub read_write : Option RwFile

unfoldable pub new_index : FileName → Index
new_index name = record {
  readonly = none;
  read_write = some (record { name = name; entries = []; pending = []; file = [] });
}

-- The loop of openRWFile over the file, twelve bytes at a time; a torn entry is fatal.
unfoldable pub read_entries : List ℕ → Result (List IndexEntry)
unfolding unmarshal
read_entries [] = ok []
read_entries (a ∷ b ∷ c ∷ d ∷ e ∷ f ∷ g ∷ h ∷ i ∷ j ∷ k ∷ l ∷ rest) =
    Common.◌>>=◌ (read_entries rest)
      λ es. ok (unmarshal (a ∷ b ∷ c ∷ d ∷ e ∷ f ∷ g ∷ h ∷ i ∷ j ∷ k ∷ l ∷ []) ∷ es)
read_entries _ = panic

unfoldable pub open_rw_file : FileName → List ℕ → Result RwFile
unfolding read_entries
open_rw_file name file =
    Common.◌>>=◌ (read_entries file)
      λ es. ok (record { name = name; entries = es; pending = []; file = file })

abbrev pub rw_index : RwFile → Index
rw_index rw = record { readonly = none; read_write = some rw }

abbrev pub readonly_index : MmapFile → Index
readonly_index f = record { readonly = some f; read_write = none }

unfoldable pub open_index : FileName → List ℕ → SegmentStatus → Result Index
unfolding open_rw_file open_mmap_file
open_index name file segment_read_only = ok (readonly_index (open_mmap_file name file))
open_index name file _ = Common.◌>>=◌ (open_rw_file name file) λ rw. ok (rw_index rw)

-- readIndexEntry of storage/mmap_file.go
unfoldable pub read_index_entry : MmapFile → ℕ → Result IndexEntry
unfolding unmarshal
read_index_entry f position =
    Common.◌>>=◌ (slice f.mapped position (position + index_entry_size)) λ bs. ok (unmarshal bs)

-- The entry at an offset from the first, by the status of the segment.
entry_at : Index → ℕ → SegmentStatus → Result IndexEntry
unfolding read_index_entry
entry_at x n segment_read_only =
    Common.◌>>=◌ (must x.readonly) λ f. read_index_entry f (n * index_entry_size)
entry_at x n _ = Common.◌>>=◌ (must x.read_write) λ rw. must (get_elem? rw.entries n)

unfoldable pub get_raft_entry_position : Index → ℕ → ℕ → SegmentStatus → Result ℕ
unfolding entry_at
get_raft_entry_position x i first status =
    if ltb i first
    then err out_of_bound
    else Common.◌>>=◌ (entry_at x (i - first) status)
        λ e. if e.raft_index == i then ok e.file_position else panic

unfoldable pub last_of : List IndexEntry → Result IndexEntry
last_of [] = panic
last_of (e ∷ []) = ok e
last_of (_ ∷ e ∷ es) = last_of (e ∷ es)

-- getLastRaftEntry; an index without entries is a panic.
unfoldable pub get_last_raft_entry : Index → SegmentStatus → Result IndexEntry
unfolding last_of
get_last_raft_entry x segment_rdwr = Common.◌>>=◌ (must x.read_write) λ rw. last_of rw.entries
get_last_raft_entry x _ = panic

module _ (v : Env) where
  unfoldable pub append_index_entry : IndexEntry → Exec Index (Unit {0})
  unfolding marshal
  append_index_entry e = do
    x ← get
    rw ← lift (must x.read_write)
    syscall v (write_index rw.name)
    put (record x {
      read_write =
          some (record rw { pending = rw.pending ++ marshal e; entries = rw.entries ++ e ∷ [] });
    })

  unfoldable pub flush : Exec Index (Unit {0})
  flush = do
    x ← get
    rw ← lift (must x.read_write)
    syscall v (flush_index rw.name)
    put (record x { read_write = some (record rw { pending = []; file = rw.file ++ rw.pending }) })

  -- RWFile.close: the entries are dropped before the flush.
  close_rw : Exec Index (Unit {0})
  unfolding flush
  close_rw = do
    x ← get
    rw ← lift (must x.read_write)
    put (record x { read_write = some (record rw { entries = [] }) })
    flush
    syscall v (close_index rw.name)

  rename_rw : FileName → Exec Index (Unit {0})
  rename_rw name = do
    x ← get
    rw ← lift (must x.read_write)
    syscall v (rename_index rw.name name)
    put (record x { read_write = some (record rw { name = name }) })

  close_readonly : Exec Index (Unit {0})
  close_readonly = do x ← get; f ← lift (must x.readonly); syscall v (close_index f.name)

  unfoldable pub close_of : Index → Exec Index (Unit {0})
  unfolding close_rw close_readonly
  close_of x = elim x.readonly [ some _ ↦ close_readonly | none ↦ close_rw ]

  unfoldable pub close : Exec Index (Unit {0})
  unfolding close_of
  close = do x ← get; close_of x

  remove_rw : Exec Index (Unit {0})
  unfolding close_rw
  remove_rw = do x ← get; rw ← lift (must x.read_write); close_rw; syscall v (remove_index rw.name)

  remove_readonly : Exec Index (Unit {0})
  unfolding close_readonly
  remove_readonly = do
    x ← get
    f ← lift (must x.readonly)
    close_readonly
    syscall v (remove_index f.name)

  remove_of : Option MmapFile → Option RwFile → Exec Index (Unit {0})
  unfolding remove_rw remove_readonly
  remove_of none (some _) = remove_rw
  remove_of (some _) none = remove_readonly
  remove_of _ _ = pure tt

  unfoldable pub remove : Exec Index (Unit {0})
  unfolding remove_of
  remove = do x ← get; remove_of x.readonly x.read_write

  -- file.Truncate(position) and the cut of the entries. `n` is below their number, since the
  -- callers have looked the entry up.
  cut : ℕ → Exec Index (Unit {0})
  cut n = do
    x ← get
    rw ← lift (must x.read_write)
    syscall v (truncate_index rw.name (n * index_entry_size))
    entries' ← lift (slice rw.entries 0 n)
    put (record x {
      read_write = some (record rw {
        entries = entries';
        file =
            take (n * index_entry_size) rw.file
            ++ replicate (n * index_entry_size - length rw.file) 0;
      });
    })

  -- The file is renamed and opened for writing again.
  reopen : ℕ → Exec Index (Unit {0})
  unfolding open_rw_file
  reopen first = do
    x ← get
    f ← lift (must x.readonly)
    syscall v (rename_index f.name (in_progress first))
    put (record x { readonly = some (record f { name = in_progress first }) })
    syscall v (close_index (in_progress first))
    put (record x { readonly = none })
    rw ← lift (open_rw_file (in_progress first) f.mapped)
    put (rw_index rw)

  prepare_truncate : ℕ → SegmentStatus → Exec Index (Unit {0})
  unfolding reopen flush
  prepare_truncate first segment_read_only = reopen first
  prepare_truncate first _ = flush

  unfoldable pub truncate_suffix : ℕ → ℕ → SegmentStatus → Exec Index (Unit {0})
  unfolding prepare_truncate cut
  truncate_suffix i first status =
      if ltb i first then raise out_of_bound else do prepare_truncate first status; cut (i - first)

  unfoldable pub change_to_readonly : Exec Index (Unit {0})
  unfolding last_of rename_rw close_rw open_mmap_file
  change_to_readonly = do
    x ← get
    rw ← lift (must x.read_write)
    first ← lift (must (get_elem? rw.entries 0))
    last ← lift (last_of rw.entries)
    rename_rw (read_only first.raft_index last.raft_index)
    close_rw
    y ← get
    closed ← lift (must y.read_write)
    put (readonly_index (open_mmap_file (read_only first.raft_index last.raft_index) closed.file))
