-- ===== src/Progress/Tests.antt =====
-- The progress over the XID_EVENT that ends a transaction.
use kingbus.Common.{ℕ, ◌≡◌, refl, none, some, List, [], ◌∷◌, replicate}
use kingbus.Bolt.{Write}
use kingbus.Boundary.{parser_dml, xid_event}
use kingbus.Progress.{Progress, EventCodec, update_process}
use kingbus.Progress.Steps.{IsCurrent, update_process-IsCurrent}
use kingbus.Concrete.Database.{memory_bolt}
use kingbus.Concrete.Sets.{number_sets}

-- Every event is an XID_EVENT of 24 bytes.
abbrev xid_codec : EventCodec
xid_codec = record {
  decode_header =
      λ v. some (record { event_type = xid_event; event_size = 24; log_pos = 100; flags = 0 });
  decode_query = λ v. none;
}

abbrev xid_bytes : List ℕ
xid_bytes = replicate 24 0

-- The gtid 6 is being applied; 5 was applied before.
abbrev inside_transaction : Progress (List Write) (List ℕ)
inside_transaction = record {
  progress = record {
    current_gtid = 6 ∷ [];
    last_save_gtid = 5 ∷ [];
    last_binlog_file = [];
    last_file_position = 0;
    executed_gtid_set_str = 5 ∷ [];
    trx_boundary_parser = record { current_state = parser_dml };
    persistent_time = 0;
    persistent_applied_index = 0;
    executed_gtid_set = 5 ∷ [];
  };
  store = [];
}

after_xid : Progress (List Write) (List ℕ)
unfolding update_process
after_xid =
    (update_process memory_bolt number_sets xid_codec 20000 1 2 xid_bytes inside_transaction).1

-- The run does what it should: the gtid joins the set.
after_xid_gtids : after_xid.progress.executed_gtid_set ≡ 5 ∷ 6 ∷ []
unfolding after_xid number_sets memory_bolt
after_xid_gtids = refl

update_process-IsCurrent_example :
    IsCurrent memory_bolt number_sets
      (update_process memory_bolt number_sets xid_codec 20000 1 2 xid_bytes inside_transaction).1
unfolding number_sets
update_process-IsCurrent_example =
    update_process-IsCurrent memory_bolt number_sets xid_codec 20000 1 2 xid_bytes
      inside_transaction refl
