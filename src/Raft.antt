-- ===== src/Raft.antt =====
-- raft/raft.go: what a node does with a Ready of etcd's raft: the messages that it sends, and its
-- tasks in the order of the loop of Run. The raft library is not modelled: it hands the node a
-- Ready, and is told when the node has done with it.
pub mod Messages
pub mod System
pub mod Fits
pub mod Stored
pub mod Applied
pub mod Performed
pub mod Ordered
pub mod Settled
mod Tests
use kingbus.Common.{
  ℕ, ◌+◌, Bool, true, false, not, ◌&&◌, ◌||◌, Option, none, some, List, [], ◌∷◌, ◌++◌, length, ltb,
  ◌==◌, if◌then◌else◌, Result, ok, panic, ◌>>=◌,
}
use kingbus.Storage.Env.{Entry}
use kingbus.Store.{apply_index}
use kingbus.Bolt.{Bolt}
use kingbus.MetaStore.{get_value}
use kingbus.MetaStore.Gtid.{fatal}
use kingbus.Apply.Entries.{entry_conf_change}
use kingbus.Apply.Range.{last_index_of}

-- raftpb.MessageType, as far as processMessages tells messages apart.
pub data MessageType : Type 0 where
  app_resp snap heartbeat : MessageType
  other_message : ℕ → MessageType

-- raftpb.Message; `content` stands for the fields that the node does not read.
pub record Message : Type 0 where
  pub kind : MessageType
  pub to : ℕ  -- uint64
  pub content : List ℕ

abbrev pub is_app_resp : MessageType → Bool
is_app_resp app_resp = true
is_app_resp _ = false

abbrev pub is_snap : MessageType → Bool
is_snap snap = true
is_snap _ = false

-- maxInFlightMsgSnap, the size of the channel of snapshot messages.
abbrev pub max_in_flight_msg_snap : ℕ
max_in_flight_msg_snap = 16

-- A send on the channel of snapshot messages, which drops the message where the channel is full.
unfoldable pub send_snap : Message → List Message → List Message
send_snap m c = if ltb (length c) max_in_flight_msg_snap then c ++ m ∷ [] else c

abbrev pub dropped : Message → Message
dropped m = record m { to = 0 }

-- What the loop of processMessages carries from a message to the one in front of it.
pub record Sending : Type 0 where
  pub messages : List Message
  pub sent_app_resp : Bool
  pub msg_snap_c : List Message

-- One round of that loop; the detector of late heartbeats only writes to the log.
unfoldable pub process_message : (ℕ → Bool) → Message → Sending → Sending
unfolding send_snap
process_message is_id_removed m s =
    let present = if is_id_removed m.to then dropped m else m in
    let latest = if is_app_resp m.kind && s.sent_app_resp then dropped present else present in
    record s {
      messages = (if is_snap m.kind then dropped latest else latest) ∷ s.messages;
      sent_app_resp = s.sent_app_resp || is_app_resp m.kind;
      msg_snap_c = if is_snap m.kind then send_snap latest s.msg_snap_c else s.msg_snap_c;
    }

-- The loop goes from the last message to the first.
unfoldable pub process_messages : (ℕ → Bool) → List Message → List Message → Sending
unfolding process_message
process_messages is_id_removed [] c = record {
  messages = [];
  sent_app_resp = false;
  msg_snap_c = c;
}
process_messages is_id_removed (m ∷ ms) c =
    process_message is_id_removed m (process_messages is_id_removed ms c)

-- raft.SoftState of etcd; whether this node is the leader.
pub record SoftState : Type 0 where
  pub lead : ℕ  -- uint64
  pub is_leader : Bool

-- raft.Ready of etcd, without the snapshot, which the storage never takes; the hard state and the
-- read states are bytes.
pub record Ready : Type 0 where
  pub soft_state : Option SoftState
  pub read_states : List (List ℕ)
  pub committed_entries : List Entry
  pub messages : List Message
  pub hard_state : Option (List ℕ)
  pub entries : List Entry

-- UpdateCommittedIndex of runRaft in server/server.go: the index does not go back.
unfoldable pub raise_committed : ℕ → ℕ → ℕ
raise_committed committed i = if ltb committed i then i else committed

-- updateCommittedIndex, with that handler.
unfoldable pub update_committed_index : List Entry → ℕ → ℕ
unfolding raise_committed
update_committed_index es committed =
    let i = last_index_of 0 es in if i == 0 then committed else raise_committed committed i

-- What the loop of Run does, one call after the other. Messages are processed, and sent later.
-- `update_lead` is UpdateLead; of UpdateLeadership behind it, which starts or stops a syncer,
-- Requests.antt has the condition.
pub data Task : Type 0 where
  update_lead : SoftState → Task
  send_read_state : List ℕ → Task
  commit : List Entry → Task
  process : List Message → Task
  save_hard_state : List ℕ → Task
  append_entries : List Entry → Task
  hand_over : List Entry → Task
  send wait_applied advance : Task

-- Whether a follower waits until the committed entries are applied.
unfoldable pub has_conf_change : List Entry → Bool
has_conf_change [] = false
has_conf_change (e ∷ es) = e.entry_type == entry_conf_change || has_conf_change es

unfoldable pub last_read_state : List (List ℕ) → List Task
last_read_state [] = []
last_read_state (r ∷ []) = send_read_state r ∷ []
last_read_state (r ∷ q ∷ rs) = last_read_state (q ∷ rs)

abbrev pub lead_task : Option SoftState → List Task
lead_task none = []
lead_task (some x) = update_lead x ∷ []

abbrev pub hard_state_task : Option (List ℕ) → List Task
hard_state_task none = []
hard_state_task (some h) = save_hard_state h ∷ []

abbrev pub when : Bool → List Task → List Task
when true ts = ts
when false ts = []

-- Whether the node is the leader once the soft state is taken.
unfoldable pub leads : Option SoftState → Bool → Bool
leads none is_lead = is_lead
leads (some s) is_lead = s.is_leader

-- What a node that is not the leader does behind the hand over.
unfoldable pub follower_tasks : Ready → List Task
unfolding has_conf_change
follower_tasks rd =
    process rd.messages
    ∷ (when (has_conf_change rd.committed_entries) (wait_applied ∷ []) ++ send ∷ [])

-- The body of the loop for a Ready: the leader sends in front of the writes, another node behind
-- them, and behind the hand over of the committed entries.
unfoldable pub tasks_of : Bool → Ready → List Task
unfolding last_read_state follower_tasks leads
tasks_of is_lead rd =
    let now_lead = leads rd.soft_state is_lead in
    lead_task rd.soft_state
    ++ (last_read_state rd.read_states
        ++ (commit rd.committed_entries
            ∷ (when now_lead (process rd.messages ∷ send ∷ [])
                ++ (hard_state_task rd.hard_state
                    ++ (append_entries rd.entries
                        ∷ hand_over rd.committed_entries
                        ∷ (when (not now_lead) (follower_tasks rd) ++ advance ∷ []))))))

module _ {D : Type 0} (b : Bolt D) (decode_index : List ℕ → ℕ) where
  -- MustGetAppliedIndex; a value of fewer than eight bytes is out of bounds.
  unfoldable pub must_get_applied_index : D → Result ℕ
  unfolding get_value fatal
  must_get_applied_index d = fatal (get_value b apply_index d) >>= λ v. elim v [
    | none ↦ ok 0
    | some w ↦
        if length w == 0 then ok 0 else if ltb (length w) 8 then panic else ok (decode_index w)
  ]
