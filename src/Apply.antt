-- ===== src/Apply.antt =====
-- server/apply.go: what a server does with the entries that raft has committed.
pub mod Binlog
pub mod Change
pub mod Divided
pub mod Entries
pub mod InStep
pub mod Once
pub mod Range
pub mod Removed
mod Tests
use kingbus.Common.{
  ℕ, zero, suc, ◌+◌, ◌-◌, ◌%◌, ◌^◌, Bool, true, false, not, ◌&&◌, ◌||◌, Option, none, some, List,
  [], ◌∷◌, ◌++◌, length, drop, ltb, ◌==◌, if◌then◌else◌, Error, Result, ok, err, panic,
}
use kingbus.Common
use kingbus.Exec.{Exec, ◌>>=◌, ◌>>◌, pure, raise, lift, get, put, must}
use kingbus.Storage.Env.{Entry}
use kingbus.Membership.{
  RaftCluster, ClusterState, Member, Attributes, RaftAttributes, ConfChange, ConfChangeType,
  add_node, remove_node, update_node, other_change, Json, validate_configuration_change, add_member,
  remove_member, update_attributes, update_raft_attributes,
}
use kingbus.Store.{StoreKey, conf_state}
use kingbus.Bolt.{Bolt}
use kingbus.MetaStore.{meta_store, set_value}
use kingbus.MetaStore.Gtid.{fatal}
use kingbus.Progress.{BinlogProgress}

-- The calls whose effect lies outside the server's own state.
pub data Effect : Type 0 where
  add_peer update_peer : ℕ → List (List ℕ) → Effect
  remove_peer : ℕ → Effect
  broadcast notify stop : Effect
  trigger : ℕ → List (ℕ × Member) → Option Error → Effect

-- The fields of KingbusServer and of its raft node that the entries change; `raft` is the state of
-- etcd's raft.
pub record KingbusServer (D G R : Type 0) : Type 0 where
  pub id : ℕ
  pub cluster : RaftCluster
  pub store : D
  pub binlog_progress : BinlogProgress G
  pub raft : R
  pub applied_index : ℕ  -- uint64
  pub term : ℕ  -- uint64
  pub effects : List Effect

-- raftpb's ConfChange codec, and ApplyConfChange of etcd's raft, which gives no state where it has
-- stopped; the state is written as JSON.
pub record RaftNode (R : Type 0) : Type 0 where
  pub unmarshal_conf_change : List ℕ → Option ConfChange
  pub apply_conf_change : ConfChange → R → R × Option (List ℕ)

-- `raft.None` of etcd
abbrev pub raft_none : ℕ
raft_none = 0

-- log.Fatalf on an error.
abbrev pub or_fatal : {S A : Type 0} → Exec S A → Exec S A
or_fatal m s = let (r, t) = m s in (fatal r, t)

unfoldable pub decode_change_member : Json → ConfChange → Result Member
decode_change_member js c =
    Common.◌>>=◌ (must (js.decode_member c.context)) λ m. if c.node_id == m.id then ok m else panic

module _ {D G R : Type 0} where
  abbrev pub emit : Effect → Exec (KingbusServer D G R) (Unit {0})
  emit e s = (ok tt, record s { effects = s.effects ++ e ∷ [] })

  abbrev pub on_cluster : {A : Type 0} → Exec (ClusterState D) A → Exec (KingbusServer D G R) A
  on_cluster m s =
      let (r, t) = m (record { cluster = s.cluster; store = s.store }) in
      (r, record s { cluster = t.cluster; store = t.store })

  abbrev pub on_store : {A : Type 0} → Exec D A → Exec (KingbusServer D G R) A
  on_store m s = let (r, d) = m s.store in (r, record s { store = d })

  unfoldable pub set_applied : Entry → Exec (KingbusServer D G R) (Unit {0})
  set_applied e s = (ok tt, record s { applied_index = e.index; term = e.term })

module _ {D G R : Type 0} (b : Bolt D) (js : Json) (node : RaftNode R) where
  -- s.raftNode.ApplyConfChange
  unfoldable pub raft_change : ConfChange → Exec (KingbusServer D G R) (Option (List ℕ))
  raft_change c s =
      let (r, state) = node.apply_conf_change c s.raft in (ok state, record s { raft = r })

  unfoldable pub save_conf_state : Option (List ℕ) → Exec (KingbusServer D G R) (Unit {0})
  unfolding set_value
  save_conf_state none = pure tt
  save_conf_state (some v) = or_fatal (on_store (set_value b conf_state v))

  unfoldable pub tell_peer : ℕ → Effect → Exec (KingbusServer D G R) (Unit {0})
  tell_peer i e = do s ← get; if i == s.id then pure tt else emit e

  -- Whether the removed member is this server; another one is told to the transport.
  unfoldable pub leave_peer : ℕ → Exec (KingbusServer D G R) Bool
  leave_peer i = do s ← get; if i == s.id then pure true else do emit (remove_peer i); pure false

  -- The switch on the type of a valid change; the result is whether this server is removed.
  unfoldable pub change_cluster : ConfChange → ConfChangeType → Exec (KingbusServer D G R) Bool
  unfolding decode_change_member tell_peer leave_peer meta_store add_member remove_member
      update_raft_attributes
  change_cluster c add_node = do
    m ← lift (decode_change_member js c)
    on_cluster (add_member (meta_store b) js m)
    tell_peer m.id (add_peer m.id m.raft_attributes.peer_urls)
    pure false
  change_cluster c remove_node = do
    on_cluster (remove_member (meta_store b) js c.node_id)
    leave_peer c.node_id
  change_cluster c update_node = do
    m ← lift (decode_change_member js c)
    on_cluster (update_raft_attributes (meta_store b) js m.id m.raft_attributes)
    tell_peer m.id (update_peer m.id m.raft_attributes.peer_urls)
    pure false
  change_cluster c (other_change _) = pure false

  -- What follows the check of the change: the rejected one is still told to raft, without its node.
  unfoldable pub after_check :
      ConfChange → Result (Unit {0}) → Exec (KingbusServer D G R) (Bool × Option Error)
  unfolding raft_change save_conf_state change_cluster
  after_check c (ok _) = do
    state ← raft_change c
    removed_self ← change_cluster c c.change
    save_conf_state state
    pure (removed_self, none)
  after_check c (err e) = do
    state ← raft_change (record c { node_id = raft_none })
    save_conf_state state
    pure (false, some e)
  after_check c panic = lift panic

  unfoldable pub apply_conf_change : ConfChange → Exec (KingbusServer D G R) (Bool × Option Error)
  unfolding validate_configuration_change after_check meta_store
  apply_conf_change c = do
    s ← get
    after_check c (validate_configuration_change (meta_store b) js c s.store)
