-- ===== src/Dump/Tests.antt =====
-- A slave that has the gtid 7 is sent the group of the gtid 8 alone.
use kingbus.Common.{
  ℕ, ◌≡◌, refl, false, none, some, List, [], ◌∷◌, replicate, arith, Result, ok, err, out_of_bound,
  if◌then◌else◌, ◌==◌, Option, zero, suc,
}
use kingbus.Storage.Env.{Entry}
use kingbus.Boundary.{gtid_event, query_event}
use kingbus.Divide.{BinlogEvent, mysql}
use kingbus.Apply.Binlog.{BinlogCodec}
use kingbus.Apply.Entries.{is_binlog_event, encode_binlog_event}
use kingbus.Progress.{without_checksum}
use kingbus.Dump.{DumpState, dump_rounds, announced, kind_of}
use kingbus.Dump.Groups.{send_all, inner_nil, inner_cons, send_all-group}
use kingbus.Storage.Disk.{first_index}
use kingbus.Storage.Disk.Limit.{total}
use kingbus.Storage.Disk.Read.{encoded_size}
use kingbus.Storage.Reader.{entry_at_index}
use kingbus.Dump.Stored.{dump_rounds-stored}
use kingbus.Concrete.Files.{plain, plain-IsCodec, two, two_index, stored, stored-Holds, disk}
use kingbus.Concrete.Sets.{number_sets}

-- An event is written as its type and its data; 33 is a GTID_EVENT, which carries its number.
abbrev event_of : ℕ → List ℕ → BinlogEvent
event_of k v = record {
  event_type = k;
  flavor = mysql;
  divided_count = 0;
  divided_seq_num = 0;
  payload = v;
}

abbrev event_from : List ℕ → Option BinlogEvent
event_from [] = none
event_from (k ∷ v) = some (event_of k v)

abbrev group_codec : BinlogCodec (List ℕ)
group_codec = record {
  events = record { decode_header = λ v. none; decode_query = λ v. none };
  unmarshal_event = event_from;
  event_type_of = λ n. elim n [ zero ↦ gtid_event | suc k ↦ query_event ];
  decode_gtid = λ v. some ([], 7);
  uuid_from_bytes = λ v. some v;
  format_int = λ n. n ∷ [];
  decode_rotate = λ v. some v;
  decode_previous_gtids = λ v. some v;
}

abbrev entry_of : ℕ → List ℕ → Entry
entry_of i v = record { term = 1; index = i; entry_type = 0; payload = encode_binlog_event v }

abbrev gtid_data : List ℕ
gtid_data = replicate 30 0

abbrev group_entries : List Entry
group_entries = entry_of 4 (0 ∷ gtid_data) ∷ entry_of 5 (1 ∷ 9 ∷ []) ∷ []

abbrev start : DumpState
start = record { next_raft_index = 4; in_exclude_group = false; sent = [] }

send_all-group_example :
    send_all number_sets group_codec (8 ∷ []) group_entries start
    ≡ ok (record {
      next_raft_index = 6;
      in_exclude_group = false;
      sent = event_of 0 gtid_data ∷ event_of 1 (9 ∷ []) ∷ [];
    })
unfolding number_sets encode_binlog_event is_binlog_event kind_of announced without_checksum
send_all-group_example =
    send_all-group number_sets group_codec (8 ∷ []) (58 ∷ 7 ∷ []) (entry_of 4 (0 ∷ gtid_data))
      (event_of 0 gtid_data) (entry_of 5 (1 ∷ 9 ∷ []) ∷ []) (event_of 1 (9 ∷ []) ∷ []) 4 false []
      (record { is_binlog = refl; decodes = refl }) refl refl
      (inner_cons (record { is_binlog = refl; decodes = refl }) refl inner_nil)

-- The log from the index 4 on.
abbrev small_log : ℕ → Result Entry
small_log i =
    if i == 4
    then ok (entry_of 4 (0 ∷ gtid_data))
    else if i == 5
    then ok (entry_of 5 (1 ∷ 9 ∷ []))
    else err out_of_bound

-- The two entries of a log on disk, of which none is a binlog event.
dump_rounds-stored_example :
    dump_rounds number_sets group_codec 2
      (8 ∷ [])
      (entry_at_index plain disk)
      6
      (record { next_raft_index = 5; in_exclude_group = false; sent = [] })
    ≡ send_all number_sets group_codec
        (8 ∷ [])
        two
        (record { next_raft_index = 5; in_exclude_group = false; sent = [] })
unfolding encoded_size total first_index
dump_rounds-stored_example =
    dump_rounds-stored plain disk [] stored two_index (replicate 46 0) plain-IsCodec number_sets
      group_codec (8 ∷ []) 6 [] two []
      (record { next_raft_index = 5; in_exclude_group = false; sent = [] })
      (record { segments = refl; holds = stored-Holds }) (refl, (refl, tt)) (omega arith)
      (omega arith) (omega arith) (omega arith)
