-- ===== src/Concrete/Files.antt =====
-- Files whose encodings write a field as one number, and whose calls never fail.
use kingbus.Common.{
  ℕ, ◌++◌, refl, true, Option, none, some, List, [], ◌∷◌, arith, length, replicate,
}
use kingbus.Storage.Env.{Env, Entry, Record, record_of, in_progress, IsCodec, IsHealthy}
use kingbus.Storage.Bytes.{le32}
use kingbus.Storage.MmapFile.{new_mmap_file}
use kingbus.Storage.MmapFile.Frames.{layout, frame}
use kingbus.Storage.IndexFile.{RwFile, rw_index, segment_rdwr}
use kingbus.Storage.Segment.{Segment}
use kingbus.Storage.Segment.Represents.{Holds, index_of, index_bytes}
use kingbus.Storage.Disk.{DiskStorage}

abbrev pub entry_of : List ℕ → Option Entry
entry_of (t ∷ i ∷ y ∷ p) = some (record { term = t; index = i; entry_type = y; payload = p })
entry_of _ = none

abbrev pub record_from : List ℕ → Option Record
record_from (c ∷ p) = some (record { crc = c; content = p })
record_from [] = none

abbrev pub plain : Env
plain = record {
  marshal_entry = λ e. e.term ∷ e.index ∷ e.entry_type ∷ e.payload;
  unmarshal_entry = entry_of;
  marshal_record = λ r. r.crc ∷ r.content;
  unmarshal_record = record_from;
  checksum = length;
  succeeds = λ _. true;
}

pub plain-IsCodec : IsCodec plain
plain-IsCodec = record {
  entry_round_trip = λ e. refl;
  record_round_trip = λ r. refl;
  record_nonempty = λ r. omega arith;
}

pub plain-IsHealthy : IsHealthy plain
plain-IsHealthy = record { no_failure = λ c. refl }

abbrev pub entry : ℕ → ℕ → Entry
entry i p = record { term = 1; index = i; entry_type = 0; payload = p ∷ [] }

-- A segment that holds two entries, and the log that it is.
abbrev pub two : List Entry
two = entry 5 7 ∷ entry 6 8 ∷ []

abbrev pub two_index : RwFile
two_index = record {
  name = in_progress 5;
  entries = index_of plain 0 two;
  pending = index_bytes (index_of plain 0 two);
  file = [];
}

abbrev pub stored : Segment
stored = record {
  first_index = 5;
  last_index = 6;
  log_file = record (new_mmap_file (in_progress 5) 64) {
    mapped = layout plain two ++ replicate 46 0;
    write_position = length (layout plain two);
  };
  log_index = rw_index two_index;
  status = segment_rdwr;
}

pub stored-Holds : Holds plain stored two_index (replicate 46 0) two
unfolding new_mmap_file layout frame le32 record_of
stored-Holds = record {
  filled = record {
    contents = refl;
    written = refl;
    indexed = refl;
    entries = refl;
    index_file = refl;
  };
  writable = refl;
  numbered = (refl, (refl, tt));
  range = (refl, omega arith, omega arith);
  bounded = omega arith;
  addressable = omega arith;
  sized = refl;
}

abbrev pub disk : DiskStorage (Unit {0})
disk = record { segments = stored ∷ []; reserve_segment_count = 3; metadata = tt }
