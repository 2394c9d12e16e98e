-- ===== src/Concrete/Server.antt =====
-- A server of a cluster with one member, on the small database.
use kingbus.Common.{ℕ, ◌+◌, refl, none, some, List, [], ◌∷◌, ◌++◌}
use kingbus.Store.{raft_cluster}
use kingbus.Bolt.{Write, put_value}
use kingbus.Boundary.{EventType, EventHeader, other_event}
use kingbus.Boundary
use kingbus.Membership.{Member, RaftCluster, new_cluster, put_member}
use kingbus.Membership.Invariant.{
  IsSound, IsConsistent, put_member-IsSound, save_changed-IsConsistent,
}
use kingbus.MetaStore.{meta_store}
use kingbus.MetaStore.Writes.{meta_store-IsStore}
use kingbus.Progress.{BinlogProgress}
use kingbus.Apply.{KingbusServer, RaftNode}
use kingbus.Apply.InStep.{Accepts}
use kingbus.Concrete.Database.{memory_bolt, memory_bolt-IsBolt}
use kingbus.Concrete.Serial.{serial_json, serial_json-IsJson}

abbrev pub counting_node : RaftNode ℕ
counting_node = record {
  unmarshal_conf_change = λ v. none;
  apply_conf_change = λ c r. (r + 1, some (r ∷ []));
}

-- A member of the id, with one peer URL.
abbrev pub member_of : ℕ → Member
member_of i = record {
  id = i;
  raft_attributes = record { peer_urls = (104 ∷ i ∷ []) ∷ [] };
  attributes = record { name = i ∷ []; admin_urls = [] };
}

abbrev pub one_member : RaftCluster
one_member = put_member 1 (member_of 1) new_cluster

abbrev pub idle_progress : BinlogProgress (List ℕ)
idle_progress = record {
  current_gtid = [];
  last_save_gtid = [];
  last_binlog_file = [];
  last_file_position = 0;
  executed_gtid_set_str = [];
  trx_boundary_parser = Boundary.reset;
  persistent_time = 0;
  persistent_applied_index = 0;
  executed_gtid_set = [];
}

-- A server whose cluster has just been saved.
abbrev pub server_of : RaftCluster → KingbusServer (List Write) (List ℕ) ℕ
server_of c = record {
  id = 1;
  cluster = c;
  store = put_value raft_cluster (serial_json.encode_cluster c) ∷ [];
  binlog_progress = idle_progress;
  raft = 0;
  applied_index = 4;
  term = 1;
  effects = [];
}

pub memory_bolt-Accepts : Accepts memory_bolt
unfolding memory_bolt
memory_bolt-Accepts ws d = (d ++ ws, refl)

pub new_cluster-IsSound : IsSound new_cluster
unfolding new_cluster
new_cluster-IsSound = record {
  keyed = λ i m f. cc;
  retired = λ i f. refl;
  one_owner = λ i j m n u f g h k. cc;
}

pub one_member-IsSound : IsSound one_member
unfolding new_cluster
one_member-IsSound =
    put_member-IsSound 1 (member_of 1) new_cluster refl refl (λ j n u f h k. absurd cc)
      new_cluster-IsSound

pub server_of-IsConsistent :
    (c : RaftCluster)
    → IsSound c
    → IsConsistent
        (meta_store memory_bolt)
        serial_json
        (record { cluster = c; store = put_value raft_cluster (serial_json.encode_cluster c) ∷ [] })
unfolding meta_store memory_bolt
server_of-IsConsistent c s =
    save_changed-IsConsistent (meta_store memory_bolt) serial_json
      (meta_store-IsStore memory_bolt memory_bolt-IsBolt) serial_json-IsJson c
      (record { cluster = c; store = [] })
      (put_value raft_cluster (serial_json.encode_cluster c) ∷ []) refl s
