-- ===== src/Raft/Tests.antt =====
-- A node that leads itself, from an empty log, with one entry that is committed at once.
use kingbus.Common.{ℕ, ◌≤◌, ◌≡◌, refl, true, false, none, some, List, [], ◌∷◌, arith, ◌==◌}
use kingbus.Storage.Env.{Entry, record_of}
use kingbus.Storage.Segment.{append_record}
use kingbus.Apply.Entries.{apply_all}
use kingbus.Storage.Disk.{last_index}
use kingbus.Bolt.{Write}
use kingbus.Raft.{
  app_resp, snap, heartbeat, Message, process_messages, Ready, commit, process, send,
  append_entries, advance, tasks_of, has_conf_change, follower_tasks,
}
use kingbus.Raft.Messages.{outgoing, process_messages_lem}
use kingbus.Raft.System.{
  Libraries, System, disk_of, IsReady, perform, receive, perform_task, hand, apply_handed, Reach,
  here, next,
}
use kingbus.Raft.Ordered.{Reach-stored}
use kingbus.Raft.Settled.{Reach-settled}
use kingbus.Concrete.Database.{memory_bolt}
use kingbus.Concrete.Serial.{serial_json}
use kingbus.Concrete.Sets.{number_sets}
use kingbus.Concrete.Server.{counting_node, one_member, server_of}
use kingbus.Concrete.Codec.{plain_codec, plain_args}
use kingbus.Concrete.Files.{plain}

abbrev messages : List Message
messages =
    record { kind = app_resp; to = 2; content = [] }
    ∷ record { kind = heartbeat; to = 3; content = [] }
    ∷ record { kind = snap; to = 2; content = [] }
    ∷ record { kind = app_resp; to = 2; content = 1 ∷ [] }
    ∷ []

process_messages_lem_example :
    (process_messages (λ i. i == 3) messages []).messages ≡ outgoing (λ i. i == 3) messages
process_messages_lem_example = process_messages_lem (λ i. i == 3) messages []

abbrev small : Libraries (List Write) (List ℕ) ℕ ℕ
small = record {
  bolt = memory_bolt;
  gtids = number_sets;
  codec = plain_codec;
  json = serial_json;
  args = plain_args;
  raft_node = counting_node;
  clock = λ i. (i, i);
  env = plain;
  segment_size = 64;
}

abbrev start : System (List Write) (List ℕ) ℕ
start = record {
  tasks = [];
  is_lead = true;
  lead = 1;
  committed_index = 0;
  outbox = [];
  sent = [];
  msg_snap_c = [];
  segments = [];
  reserve_segment_count = 4;
  server = record (server_of one_member) { applied_index = 0 };
  handed = none;
  notified = false;
}

abbrev first : Entry
first = record { term = 1; index = 1; entry_type = 0; payload = [] }

abbrev first_ready : Ready
first_ready = record {
  soft_state = none;
  read_states = [];
  committed_entries = first ∷ [];
  messages = [];
  hard_state = none;
  entries = first ∷ [];
}

abbrev S : Type 0
S = System (List Write) (List ℕ) ℕ

-- The tasks one by one, up to the hand over.
abbrev done : S → S
done s = elim s.tasks [ [] ↦ s | k ∷ ks ↦ (perform small k (record s { tasks = ks })).1 ]

abbrev got : S
got = record start { tasks = tasks_of true first_ready }

first_ready-IsReady : IsReady start first_ready
first_ready-IsReady = record {
  fresh = (omega arith, λ us q. absurd cc);
  numbered = (omega arith, (refl, (omega arith, tt)));
  committed_numbered = (omega arith, (refl, (omega arith, tt)));
  stored = omega arith;
}

abbrev written : S
written = done (done (done (done got)))

abbrev handed_over : S
handed_over = record written { tasks = advance ∷ []; handed = some (first ∷ []); notified = false }

abbrev all_applied : S
all_applied = record handed_over {
  server =
      (apply_all memory_bolt number_sets plain_codec serial_json plain_args counting_node
        (λ i. (i, i)) (first ∷ []) handed_over.server).1;
  handed = none;
  notified = true;
}

to_written : Reach small start written
unfolding perform tasks_of record_of append_record
to_written =
    next
      (next
        (next
          (next (next here (receive first_ready refl first_ready-IsReady refl))
            (perform_task (commit (first ∷ [])) _ refl tt refl))
          (perform_task (process []) _ refl tt refl))
        (perform_task send _ refl tt refl))
      (perform_task (append_entries (first ∷ [])) _ refl tt refl)

to_applied : Reach small start all_applied
unfolding perform tasks_of record_of append_record apply_all
to_applied =
    next (next to_written (hand (first ∷ []) _ refl refl refl))
      (apply_handed (first ∷ []) _ refl refl refl)

Reach-stored_example : 1 ≤ last_index (disk_of all_applied)
unfolding perform tasks_of record_of append_record apply_all
Reach-stored_example =
    Reach-stored small start all_applied refl refl (omega arith) (omega arith) to_applied

-- The same node as a follower, which sends while its entry is being applied.
abbrev follower : S
follower = record start { is_lead = false; lead = 2 }

abbrev follower_written : S
follower_written = done (done (record follower { tasks = tasks_of false first_ready }))

abbrev follower_handed : S
follower_handed = record follower_written {
  tasks = process [] ∷ send ∷ advance ∷ [];
  handed = some (first ∷ []);
  notified = false;
}

follower_sends : Reach small follower (done follower_handed)
unfolding perform tasks_of record_of append_record follower_tasks has_conf_change
follower_sends =
    next
      (next
        (next
          (next
            (next here (
              receive first_ready refl
                (record {
                  fresh = (omega arith, λ us q. absurd cc);
                  numbered = (omega arith, (refl, (omega arith, tt)));
                  committed_numbered = (omega arith, (refl, (omega arith, tt)));
                  stored = omega arith;
                })
                refl))
            (perform_task (commit (first ∷ [])) _ refl tt refl))
          (perform_task (append_entries (first ∷ [])) _ refl tt refl))
        (hand (first ∷ []) _ refl refl refl))
      (perform_task (process []) _ refl tt refl)

Reach-settled_example : has_conf_change (first ∷ []) ≡ false
unfolding perform tasks_of
Reach-settled_example =
    Reach-settled small follower (done follower_handed) (first ∷ []) (advance ∷ []) refl refl
      follower_sends refl refl refl
