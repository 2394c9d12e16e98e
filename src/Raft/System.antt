-- ===== src/Raft/System.antt =====
-- The goroutine of Run in raft/raft.go and that of runRaft in server/server.go, as one system: the
-- first takes a Ready through its tasks and hands the committed entries over, the second applies
-- them. The steps of the two interleave; a task, and the applying of one batch, runs whole.
use kingbus.Common.{
  ℕ, ◌<◌, ◌≤◌, ◌≡◌, Bool, true, false, Option, none, some, List, [], ◌∷◌, ◌++◌, ok,
}
use kingbus.Exec.{Exec}
use kingbus.Storage.Env.{Env, Entry}
use kingbus.Storage.Segment.{Segment}
use kingbus.Storage.Disk.{DiskStorage, last_index, append_raft_entries}
use kingbus.Store.{hard_state}
use kingbus.Bolt.{Bolt}
use kingbus.Gtids.{Gtids}
use kingbus.MetaStore.{set_value}
use kingbus.MetaStore.Gtid.{disk_metadata}
use kingbus.Membership.{Json, is_id_removed}
use kingbus.Apply.{KingbusServer, RaftNode, or_fatal}
use kingbus.Apply.Binlog.{BinlogCodec}
use kingbus.Apply.Entries.{ArgsJson, apply_all}
use kingbus.Apply.Range.{IsRun, last_index_of}
use kingbus.Raft.{
  Message, process_messages, Ready, update_committed_index, Task, update_lead, commit, process,
  send, save_hard_state, append_entries, hand_over, wait_applied, tasks_of,
}

-- Entries that count up from an index above 0.
abbrev pub CountsUp : List Entry → Type 0
CountsUp [] = Unit
CountsUp (e ∷ es) = (0 < e.index) × IsRun e.index (e ∷ es)

-- The libraries that the two goroutines reach, and the size of a segment.
pub record Libraries (D G U R : Type 0) : Type 0 where
  pub bolt : Bolt D
  pub gtids : Gtids G U
  pub codec : BinlogCodec G
  pub json : Json
  pub args : ArgsJson
  pub raft_node : RaftNode R
  pub clock : ℕ → ℕ × ℕ
  pub env : Env
  pub segment_size : ℕ

-- The node with its tasks, the log, whose metadata is the store of the server, and the server.
-- `handed` is what the second goroutine is applying, and `notified` the channel by which it tells
-- that it has done; `outbox` holds the messages that are processed and not sent.
pub record System (D G R : Type 0) : Type 0 where
  pub tasks : List Task
  pub is_lead : Bool
  pub lead : ℕ  -- uint64
  pub committed_index : ℕ  -- uint64
  pub outbox : List Message
  pub sent : List (List Message)
  pub msg_snap_c : List Message
  pub segments : List Segment
  pub reserve_segment_count : ℕ
  pub server : KingbusServer D G R
  pub handed : Option (List Entry)
  pub notified : Bool

module _ {D G R : Type 0} where
  abbrev pub disk_of : System D G R → DiskStorage D
  disk_of s = record {
    segments = s.segments;
    reserve_segment_count = s.reserve_segment_count;
    metadata = s.server.store;
  }

  abbrev pub on_disk : {A : Type 0} → Exec (DiskStorage D) A → Exec (System D G R) A
  on_disk m s =
      let (r, d) = m (disk_of s) in
      (r, record s { segments = d.segments; server = record s.server { store = d.metadata } })

  abbrev pub on_server_store : {A : Type 0} → Exec D A → Exec (System D G R) A
  on_server_store m s =
      let (r, d) = m s.server.store in (r, record s { server = record s.server { store = d } })

  -- New entries replace none that is applied or being applied.
  abbrev pub ReplacesNone : System D G R → List Entry → Type 0
  ReplacesNone s [] = Unit
  ReplacesNone s (e ∷ es) =
      (s.server.applied_index < e.index)
      × ((us : List Entry) → s.handed ≡ some us → last_index_of 0 us < e.index)

  -- What etcd's raft promises of a Ready: the new entries count up and replace none that it has
  -- given out as committed; the committed ones count up and are in the log once the new ones are.
  pub record IsReady (s : System D G R) (rd : Ready) : Type 0 where
    pub fresh : ReplacesNone s rd.entries
    pub numbered : CountsUp rd.entries
    pub committed_numbered : CountsUp rd.committed_entries
    pub stored :
        last_index_of 0 rd.committed_entries ≤ last_index_of (last_index (disk_of s)) rd.entries

module _ {D G U R : Type 0} (lib : Libraries D G U R) where
  -- A task that does not wait for the other goroutine. The channel of read states has no reader.
  unfoldable pub perform : Task → Exec (System D G R) (Unit {0})
  unfolding update_committed_index process_messages is_id_removed append_raft_entries set_value
      disk_metadata
  perform (update_lead x) s = (ok tt, record s { lead = x.lead; is_lead = x.is_leader })
  perform (commit es) s =
      (ok tt, record s { committed_index = update_committed_index es s.committed_index })
  perform (process ms) s =
      let done = process_messages (is_id_removed s.server.cluster) ms s.msg_snap_c in
      (ok tt, record s { outbox = done.messages; msg_snap_c = done.msg_snap_c })
  perform send s = (ok tt, record s { sent = s.sent ++ s.outbox ∷ []; outbox = [] })
  perform (save_hard_state h) s = or_fatal (on_server_store (set_value lib.bolt hard_state h)) s
  perform (append_entries es) s =
      or_fatal
        (on_disk
          (append_raft_entries lib.env (disk_metadata lib.bolt lib.gtids) lib.segment_size es))
        s
  perform _ s = (ok tt, s)

  abbrev pub IsFree : Task → Type 0
  IsFree (hand_over es) = ⊥
  IsFree wait_applied = ⊥
  IsFree _ = Unit

  -- A step of one of the two goroutines. A call that fails ends the process, so it is no step.
  pub data Step (s : System D G R) (t : System D G R) : Type 0 where
    receive :
        (rd : Ready)
        → s.tasks ≡ []
        → IsReady s rd
        → t ≡ record s { tasks = tasks_of s.is_lead rd }
        → Step s t
    perform_task :
        (k : Task) (ks : List Task)
        → s.tasks ≡ k ∷ ks
        → IsFree k
        → perform k (record s { tasks = ks }) ≡ (ok tt, t)
        → Step s t
    hand :
        (es : List Entry) (ks : List Task)
        → s.tasks ≡ hand_over es ∷ ks
        → s.handed ≡ none
        → t ≡ record s { tasks = ks; handed = some es; notified = false }
        → Step s t
    apply_handed :
        (es : List Entry) (u : KingbusServer D G R)
        → s.handed ≡ some es
        → apply_all lib.bolt lib.gtids lib.codec lib.json lib.args lib.raft_node lib.clock es
            s.server
          ≡ (ok tt, u)
        → t ≡ record s { server = u; handed = none; notified = true }
        → Step s t
    wait :
        (ks : List Task)
        → s.tasks ≡ wait_applied ∷ ks
        → s.notified ≡ true
        → t ≡ record s { tasks = ks; notified = false }
        → Step s t

  pub data Reach (s : System D G R) : System D G R → Type 0 where
    here : Reach s s
    next : {t u : System D G R} → Reach s t → Step t u → Reach s u
