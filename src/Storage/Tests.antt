-- ===== src/Storage/Tests.antt =====
-- The storage on concrete files: each theorem at a small segment.
use kingbus.Common.{
  ℕ, ◌-◌, ◌≡◌, refl, true, false, not, ◌&&◌, List, [], ◌∷◌, ◌++◌, map, arith, ok, length, drop,
  replicate, inl, inr,
}
use kingbus.Storage.Env.{record_of, in_progress}
use kingbus.Storage.Bytes.{le32}
use kingbus.Storage.MmapFile.{new_mmap_file}
use kingbus.Storage.MmapFile.Frames.{layout, frame}
use kingbus.Storage.IndexFile.{RwFile, rw_index, new_index}
use kingbus.Storage.Segment.{
  Segment, new_segment, append_records, truncate_suffix, read_raft_entries, rebuild_index,
}
use kingbus.Storage.Disk.{
  entries, first_index, DiskStorage, MetaStorage, save_raft_entries, append_raft_entries,
}
use kingbus.Storage.Disk.Replace.{Ends, save_raft_entries-Ends, append_raft_entries-Ends}
use kingbus.Storage.Disk.Read.{encoded_size, entries-Ends}
use kingbus.Storage.Disk.Limit.{total}
use kingbus.Storage.Segment.Represents.{Holds}
use kingbus.Storage.Segment.Truncate.{truncate_suffix-Holds}
use kingbus.Storage.Segment.Positions.{Holds-Readable}
use kingbus.Storage.Segment.Recover.{rebuild_index-Holds}
use kingbus.Storage.Segment.Read.{within, read_raft_entries_lem}
use kingbus.Concrete.Files.{
  plain, plain-IsCodec, plain-IsHealthy, entry, two, two_index, stored, stored-Holds, disk,
}
use kingbus.Concrete.Database.{memory_bolt, memory_bolt-IsBolt}
use kingbus.Bolt.{Write}
use kingbus.Store.{StoreKey-discrete}
use kingbus.MetaStore.{meta_store}
use kingbus.MetaStore.Writes.{meta_store-IsStore}
use kingbus.Storage.Reader.{start_flag}
use kingbus.Storage.Reader.Flag.{start_flag-tells}
use kingbus.Storage.Segment.Append.{append_records-Holds}

abbrev fresh : Segment
fresh = new_segment (in_progress 5) 64

abbrev no_index : RwFile
no_index = record { name = in_progress 5; entries = []; pending = []; file = [] }

fresh-Holds : Holds plain fresh no_index (replicate 64 0) []
unfolding new_segment new_mmap_file new_index layout
fresh-Holds = record {
  filled = record {
    contents = refl;
    written = refl;
    indexed = refl;
    entries = refl;
    index_file = refl;
  };
  writable = refl;
  numbered = tt;
  range = (refl, refl);
  bounded = omega arith;
  addressable = omega arith;
  sized = refl;
}

append_records-Holds_example :
    (t : Segment) × (jx : RwFile) × (append_records plain
        (map (record_of plain) (entry 5 7 ∷ entry 6 8 ∷ []))
        5
        fresh
      ≡ (ok tt, t))
    × Holds plain t jx
        (drop (length (layout plain (entry 5 7 ∷ entry 6 8 ∷ []))) (replicate 64 0))
        (entry 5 7 ∷ entry 6 8 ∷ [])
unfolding new_segment layout frame le32 record_of
append_records-Holds_example =
    append_records-Holds plain fresh no_index (replicate 64 0) [] 5 (entry 5 7) (entry 6 8 ∷ [])
      plain-IsHealthy fresh-Holds (omega arith, inl refl) (refl, (refl, tt)) (omega arith)
      (omega arith)

truncate_suffix-Holds_example :
    (t : Segment) × (jx : RwFile) × (truncate_suffix plain 6 stored ≡ (ok tt, t))
    × Holds plain t jx
        (replicate (length (layout plain (entry 6 8 ∷ []))) 0 ++ replicate 46 0)
        (entry 5 7 ∷ [])
truncate_suffix-Holds_example =
    truncate_suffix-Holds plain stored two_index (replicate 46 0) (entry 5 7 ∷ []) [] (entry 6 8)
      plain-IsHealthy stored-Holds

rebuild_index-Holds_example :
    rebuild_index plain stored.log_file (length stored.log_file.mapped)
    ≡ ok (
        rw_index (record {
          name = stored.log_file.name;
          entries = two_index.entries;
          pending = two_index.file ++ two_index.pending;
          file = [];
        }))
rebuild_index-Holds_example =
    rebuild_index-Holds plain stored two_index two 46 plain-IsCodec plain-IsHealthy stored-Holds

read_raft_entries_lem_example :
    read_raft_entries plain stored 5 6 100
    ≡ ok ((within plain 100 0 two).0, 100 - (within plain 100 0 two).1)
read_raft_entries_lem_example =
    read_raft_entries_lem plain stored (replicate 46 0) [] (entry 6 8 ∷ []) [] (entry 5 7) 100
      plain-IsCodec
      (Holds-Readable plain stored two_index (replicate 46 0) (entry 5 7) (entry 6 8 ∷ [])
        stored-Holds)

abbrev no_metadata : MetaStorage (Unit {0})
no_metadata = record { update_puged_gtidset = λ i m. (ok tt, m) }

save_raft_entries-Ends_example :
    (d' : DiskStorage (Unit {0})) × (t : Segment) × (jx : RwFile) × (save_raft_entries plain 64
        (entry 7 9 ∷ [])
        disk
      ≡ (ok tt, d'))
    × Ends plain d' [] t jx
        (drop (length (layout plain (entry 7 9 ∷ []))) (replicate 46 0))
        (entry 5 7 ∷ entry 6 8 ∷ entry 7 9 ∷ [])
unfolding layout frame le32 record_of
save_raft_entries-Ends_example =
    save_raft_entries-Ends plain disk [] stored two_index (replicate 46 0) two 64 (entry 7 9) []
      plain-IsHealthy (record { segments = refl; holds = stored-Holds }) (omega arith, inr refl)
      (refl, tt) (omega arith) (omega arith) (omega arith)

append_raft_entries-Ends_example :
    (d' : DiskStorage (Unit {0})) × (t : Segment) × (jx : RwFile) × (rest : List ℕ)
    × (append_raft_entries plain no_metadata 64 (entry 6 1 ∷ entry 7 2 ∷ []) disk ≡ (ok tt, d'))
    × Ends plain d' [] t jx rest (entry 5 7 ∷ entry 6 1 ∷ entry 7 2 ∷ [])
unfolding layout frame le32 record_of
append_raft_entries-Ends_example =
    append_raft_entries-Ends plain no_metadata disk [] stored two_index (replicate 46 0)
      (entry 5 7 ∷ []) [] (entry 6 8) 64 (entry 6 1) (entry 7 2 ∷ []) plain-IsHealthy
      (record { segments = refl; holds = stored-Holds }) refl (refl, (refl, tt)) (omega arith)
      (omega arith) (omega arith)

entries-Ends_example : entries plain disk 6 7 100 ≡ ok (entry 6 8 ∷ [])
unfolding encoded_size total first_index
entries-Ends_example =
    entries-Ends plain disk [] stored two_index (replicate 46 0) (entry 5 7 ∷ []) [] [] (entry 6 8)
      100 plain-IsCodec (record { segments = refl; holds = stored-Holds }) (omega arith)
      (omega arith) (omega arith) (omega arith)

-- The first run had no log yet, and was not ended by a Close.
abbrev crashed : List Write
crashed = (start_flag (meta_store memory_bolt) false []).1

start_flag-tells_example : true ≡ (true && not false)
unfolding meta_store memory_bolt start_flag StoreKey-discrete
start_flag-tells_example =
    start_flag-tells (meta_store memory_bolt) (meta_store-IsStore memory_bolt memory_bolt-IsBolt)
      false true false [] crashed crashed crashed
      (start_flag (meta_store memory_bolt) true crashed).1 false true refl refl refl refl
