-- ===== src/Syncer/Tests.antt =====
-- A master whose connection breaks at the first query.
use kingbus.Common.{ℕ, ◌+◌, ◌≡◌, refl, List, [], ◌∷◌, ok, ◌==◌, if◌then◌else◌}
use kingbus.Bolt.{Write}
use kingbus.Boundary
use kingbus.Progress.{Progress}
use kingbus.Syncer.{
  answered, broken, Query, gtid_purged, gtid_mode, binlog_format, global_server_id,
  global_server_uuid, version, Client, Encodings,
}
use kingbus.Syncer.Server.{Starting, start_syncer_server, IsStarted, start_syncer_server-IsStarted}
use kingbus.Concrete.Database.{memory_bolt}
use kingbus.Concrete.Sets.{number_sets}

abbrev text_of : Query → List ℕ
text_of gtid_purged = 4 ∷ []
text_of gtid_mode = 79 ∷ 78 ∷ []
text_of binlog_format = 82 ∷ 79 ∷ 87 ∷ []
text_of global_server_id = 7 ∷ []
text_of global_server_uuid = 1 ∷ []
text_of version = 8 ∷ []

-- The world counts the queries.
abbrev small_client : Client ℕ (List ℕ) (List ℕ)
small_client = record {
  connect = λ n. (ok tt, n);
  query = λ q n. (if n == 0 then broken else answered (text_of q), n + 1);
  start_sync = λ gtids n. (ok tt, n);
  get_string = λ v. ok v;
  get_int = λ v. ok 7;
}

abbrev small_code : Encodings
small_code = record { encode_info = λ m. ok m.server_uuid; encode_purged = λ v. ok v }

abbrev fresh : Progress (List Write) (List ℕ)
fresh = record {
  progress = record {
    current_gtid = [];
    last_save_gtid = [];
    last_binlog_file = [];
    last_file_position = 0;
    executed_gtid_set_str = [];
    trx_boundary_parser = Boundary.reset;
    persistent_time = 0;
    persistent_applied_index = 0;
    executed_gtid_set = [];
  };
  store = [];
}

abbrev running : Starting (List Write) (List ℕ) ℕ
running = (start_syncer_server memory_bolt number_sets small_client small_code 0 fresh).1

start_syncer_server-IsStarted_example :
    IsStarted memory_bolt number_sets small_client small_code 0 fresh running
unfolding start_syncer_server number_sets memory_bolt
start_syncer_server-IsStarted_example =
    start_syncer_server-IsStarted memory_bolt number_sets small_client small_code 0 fresh running
      refl

running_data : running.syncer.data_c ≡ (5 ∷ 4 ∷ []) ∷ (4 ∷ 1 ∷ []) ∷ []
unfolding start_syncer_server number_sets memory_bolt
running_data = refl
