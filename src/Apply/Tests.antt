-- ===== src/Apply/Tests.antt =====
-- Committed entries at a server of a cluster with one member.
use kingbus.Common.{
  ◌==◌, ◌||◌, if◌then◌else◌, lookup, ℕ, ◌≡◌, refl, sym, true, none, List, [], ◌∷◌, arith, length,
  length-replicate, replicate, drop, Result, ok, panic,
}
use kingbus.Storage.Env.{Entry}
use kingbus.Bolt.{Write}
use kingbus.Divide.{BinlogEvent, SourceEvent, divide_binlog_event, max_event_data_size}
use kingbus.Membership.{
  RaftCluster, new_cluster, ConfChange, add_node, remove_node, put_member, retire, is_set,
}
use kingbus.MetaStore.{set_value, transact}
use kingbus.MetaStore.Gtid.{fatal}
use kingbus.Apply.{KingbusServer, apply_conf_change}
use kingbus.Apply.InStep.{Keeps}
use kingbus.Apply.Change.{apply_conf_change-IsInStep}
use kingbus.Apply.Removed.{apply_conf_change-removes}
use kingbus.Apply.Binlog.{apply_my_sql_binlog_event}
use kingbus.Apply.Divided.{apply-divided}
use kingbus.Apply.Entries.{apply_entries, apply_rest}
use kingbus.Apply.Once.{apply_entries-again, apply_entries_lem}
use kingbus.Concrete.Database.{memory_bolt, memory_bolt-IsBolt}
use kingbus.Concrete.Serial.{serial_json, serial_json-IsJson}
use kingbus.Concrete.Sets.{number_sets}
use kingbus.Concrete.Codec.{
  event_bytes, event_from-event_bytes, large_header, plain_codec, plain_args,
}
use kingbus.Concrete.Server.{
  counting_node, member_of, one_member, server_of, memory_bolt-Accepts, one_member-IsSound,
  server_of-IsConsistent,
}

abbrev add_second : ConfChange
add_second = record {
  id = 9;
  change = add_node;
  node_id = 2;
  context = serial_json.encode_member (member_of 2);
}

apply_conf_change-IsInStep_example :
    Keeps memory_bolt serial_json counting_node
      (λ i. ⊥)
      (apply_conf_change memory_bolt serial_json counting_node add_second)
      (server_of one_member)
apply_conf_change-IsInStep_example =
    apply_conf_change-IsInStep memory_bolt serial_json counting_node (λ i. ⊥) memory_bolt-IsBolt
      serial_json-IsJson memory_bolt-Accepts add_second (member_of 2) (server_of one_member)
      (server_of-IsConsistent one_member one_member-IsSound, λ i g. absurd g) tt
      (serial_json-IsJson.member_round_trip (member_of 2), refl)

abbrev without_second : RaftCluster
without_second = retire 2 one_member

large_bytes : List ℕ
large_bytes = replicate 16777216 7

length-large_bytes : length large_bytes ≡ 16777216
unfolding large_bytes
length-large_bytes = length-replicate {A = ℕ} 16777216 7

abbrev large_event : SourceEvent
large_event = record { event_type = 30; event_size = 16777216; raw_data = large_bytes }

apply-divided_example :
    (p : BinlogEvent) × ((ps : List BinlogEvent) × ((divide_binlog_event large_event ≡ ok (p ∷ ps))
        × ((apply_my_sql_binlog_event memory_bolt number_sets plain_codec 5 0 0
              (event_bytes p)
              (server_of one_member)).0
            ≡ panic)))
unfolding max_event_data_size
apply-divided_example =
    apply-divided memory_bolt number_sets plain_codec event_bytes 5 0 0 large_event large_header
      (server_of one_member) event_from-event_bytes (omega (arith, length-large_bytes))
      (omega (arith, length-large_bytes)) (omega (arith, length-large_bytes)) refl
      (sym length-large_bytes)

-- Empty entries, as a new leader proposes them, and the arguments of a syncer.
abbrev three_entries : List Entry
three_entries =
    record { term = 2; index = 4; entry_type = 0; payload = [] }
    ∷ record { term = 2; index = 5; entry_type = 0; payload = [] }
    ∷ record { term = 2; index = 6; entry_type = 0; payload = 3 ∷ 8 ∷ [] }
    ∷ []

abbrev run :
    List Entry
    → KingbusServer (List Write) (List ℕ) ℕ
    → Result (Unit {0}) × KingbusServer (List Write) (List ℕ) ℕ
run es s =
    apply_entries memory_bolt number_sets plain_codec serial_json plain_args counting_node
      (λ i. (i, i)) es s

apply_entries-again_example :
    run three_entries (run three_entries (server_of one_member)).1
    ≡ (ok tt, (run three_entries (server_of one_member)).1)
unfolding apply_entries memory_bolt set_value transact fatal
apply_entries-again_example =
    apply_entries-again memory_bolt number_sets plain_codec serial_json plain_args counting_node
      (λ i. (i, i)) 4 three_entries (server_of one_member)
      (run three_entries (server_of one_member)).1
      (refl, (omega arith, (refl, (omega arith, (refl, (omega arith, tt)))))) (omega arith) refl

-- Of the three, the entry 4 is behind the applied index of the server.
apply_entries_lem_example :
    run three_entries (server_of one_member)
    ≡ apply_rest memory_bolt number_sets plain_codec serial_json plain_args counting_node
        (λ i. (i, i))
        (drop 1 three_entries)
        (server_of one_member)
apply_entries_lem_example =
    apply_entries_lem memory_bolt number_sets plain_codec serial_json plain_args counting_node
      (λ i. (i, i)) (record { term = 2; index = 4; entry_type = 0; payload = [] })
      (drop 1 three_entries) (server_of one_member) (omega arith)
      (refl, (omega arith, (refl, (omega arith, (refl, (omega arith, tt))))))

abbrev remove_self : ConfChange
remove_self = record { id = 10; change = remove_node; node_id = 1; context = [] }

apply_conf_change-removes_example :
    (t : KingbusServer (List Write) (List ℕ) ℕ) × ((apply_conf_change memory_bolt serial_json
          counting_node remove_self
          (server_of one_member)
        ≡ (ok (true, none), t))
      × ((lookup 1 t.cluster.members_map
            ≡ (if 1 == 1 then none else lookup 1 one_member.members_map))
          × (is_set 1 t.cluster.removed_map ≡ (1 == 1 || is_set 1 one_member.removed_map))))
unfolding put_member new_cluster
apply_conf_change-removes_example =
    apply_conf_change-removes memory_bolt serial_json counting_node memory_bolt-Accepts remove_self
      (member_of 1) (server_of one_member) 1 memory_bolt-IsBolt serial_json-IsJson
      ((server_of-IsConsistent one_member one_member-IsSound).stored) refl refl refl
