-- ===== src/Apply/Entries.antt =====
-- server/apply.go: the dispatch on committed entries, and which of them are still to be applied.
use kingbus.Common.{
  ℕ, ◌+◌, ◌-◌, ◌%◌, ◌^◌, Bool, false, ◌||◌, Option, none, some, List, [], ◌∷◌, length, drop, ltb,
  ◌==◌, if◌then◌else◌, Error, panic,
}
use kingbus.Exec.{Exec, ◌>>=◌, ◌>>◌, pure, lift, get, must}
use kingbus.Storage.Env.{Entry}
use kingbus.Membership.{Attributes, Json, update_attributes}
use kingbus.Store.{master_info, syncer_args}
use kingbus.Bolt.{Bolt}
use kingbus.Gtids.{Gtids}
use kingbus.MetaStore.{meta_store, set_value}
use kingbus.Apply.{
  KingbusServer, RaftNode, broadcast, notify, stop, trigger, emit, on_cluster, on_store, or_fatal,
  set_applied, apply_conf_change,
}
use kingbus.Apply.Binlog.{BinlogCodec, apply_my_sql_binlog_event, apply_master_gtid_purged}

-- The type byte in front of the data of an entry, of utils/pb_utils.go.
abbrev pub my_sql_binlog_event_type : ℕ
my_sql_binlog_event_type = 1

abbrev pub node_attributes_type : ℕ
node_attributes_type = 2

abbrev pub syncer_args_type : ℕ
syncer_args_type = 3

abbrev pub master_info_type : ℕ
master_info_type = 4

abbrev pub master_gtid_purged_type : ℕ
master_gtid_purged_type = 5

-- raftpb.EntryType
abbrev pub entry_normal : ℕ
entry_normal = 0

abbrev pub entry_conf_change : ℕ
entry_conf_change = 1

-- encoding/json on the arguments that entries carry; of two only the success matters.
pub record ArgsJson : Type 0 where
  pub decode_attributes : List ℕ → Option (ℕ × Attributes)
  pub is_syncer_args : List ℕ → Bool
  pub is_master_info : List ℕ → Bool
  pub decode_master_gtid_purged : List ℕ → Option (List ℕ)

-- IsBinlogEvent of utils/pb_utils.go
unfoldable pub is_binlog_event : Entry → Bool
is_binlog_event e =
    if e.entry_type == entry_normal
    then elim e.payload [ [] ↦ false | kind ∷ _ ↦ kind == my_sql_binlog_event_type ]
    else false

-- EncodeBinlogEvent, over the encoding of the event.
unfoldable pub encode_binlog_event : List ℕ → List ℕ
encode_binlog_event v = my_sql_binlog_event_type ∷ v

-- ap.Entries[appliedIndex+1-firstIndex:], where that is inside.
unfoldable pub to_apply : List Entry → ℕ → ℕ → List Entry
to_apply es first applied =
    let at = ((applied + 1) % 2 ^ 64 + 2 ^ 64 - first) % 2 ^ 64 in
    if ltb at (length es) then drop at es else []

module _ {D G U R : Type 0} (b : Bolt D) (g : Gtids G U) (codec : BinlogCodec G) (js : Json)
    (args : ArgsJson) (node : RaftNode R) (clock : ℕ → ℕ × ℕ) where
  unfoldable pub apply_node_attributes : List ℕ → Exec (KingbusServer D G R) (Unit {0})
  unfolding update_attributes meta_store
  apply_node_attributes v = do
    a ← lift (must (args.decode_attributes v))
    on_cluster (update_attributes (meta_store b) js a.0 a.1)

  unfoldable pub apply_syncer_args : List ℕ → Exec (KingbusServer D G R) (Unit {0})
  unfolding set_value
  apply_syncer_args v =
      if args.is_syncer_args v then or_fatal (on_store (set_value b syncer_args v)) else lift panic

  unfoldable pub apply_master_info : List ℕ → Exec (KingbusServer D G R) (Unit {0})
  unfolding set_value
  apply_master_info v =
      if args.is_master_info v then or_fatal (on_store (set_value b master_info v)) else lift panic

  unfoldable pub apply_purged_args : List ℕ → Exec (KingbusServer D G R) (Unit {0})
  unfolding apply_master_gtid_purged
  apply_purged_args v = do
    text ← lift (must (args.decode_master_gtid_purged v))
    apply_master_gtid_purged b g codec text

  -- The switch on the type byte; `clock` gives the two readings at an entry.
  unfoldable pub apply_content : ℕ → List ℕ → Exec (KingbusServer D G R) (Unit {0})
  unfolding apply_my_sql_binlog_event apply_node_attributes apply_syncer_args apply_master_info
      apply_purged_args
  apply_content index [] = pure tt
  apply_content index (kind ∷ v) =
      if kind == my_sql_binlog_event_type
      then apply_my_sql_binlog_event b g codec index (clock index).0 (clock index).1 v
        >> emit broadcast
      else if kind == node_attributes_type
      then apply_node_attributes v
      else if kind == syncer_args_type
      then apply_syncer_args v
      else if kind == master_info_type
      then apply_master_info v
      else if kind == master_gtid_purged_type
      then apply_purged_args v
      else lift panic

  unfoldable pub apply_entry_normal : Entry → Exec (KingbusServer D G R) (Unit {0})
  unfolding apply_content
  apply_entry_normal e = apply_content e.index e.payload

  -- What an entry does; a change has the id that waits for it, and its result.
  unfoldable pub handle : Entry → Exec (KingbusServer D G R) (Option (ℕ × (Bool × Option Error)))
  unfolding apply_entry_normal apply_conf_change
  handle e =
      if e.entry_type == entry_normal
      then (do apply_entry_normal e; pure none)
      else if e.entry_type == entry_conf_change
      then (do
        c ← lift (must (node.unmarshal_conf_change e.payload))
        r ← apply_conf_change b js node c
        pure (some (c.id, r)))
      else lift panic

  -- Then the entry counts as applied, and the one who waits is told.
  unfoldable pub settle :
      Entry → Option (ℕ × (Bool × Option Error)) → Exec (KingbusServer D G R) Bool
  unfolding set_applied
  settle e none = do set_applied e; pure false
  settle e (some (i, (removed_self, error))) = do
    set_applied e
    s ← get
    emit (trigger i s.cluster.members_map error)
    pure removed_self

  -- One round of the loop of apply; the result is whether this server is removed.
  unfoldable pub apply_entry : Entry → Exec (KingbusServer D G R) Bool
  unfolding handle settle
  apply_entry e = handle e >>= settle e

  unfoldable pub apply : List Entry → Exec (KingbusServer D G R) Bool
  unfolding apply_entry
  apply [] = pure false
  apply (e ∷ es) = do
    removed_self ← apply_entry e
    should_stop ← apply es
    pure (removed_self || should_stop)

  unfoldable pub apply_rest : List Entry → Exec (KingbusServer D G R) (Unit {0})
  unfolding apply
  apply_rest [] = pure tt
  apply_rest (e ∷ es) = do should_stop ← apply (e ∷ es); if should_stop then emit stop else pure tt

  unfoldable pub apply_entries : List Entry → Exec (KingbusServer D G R) (Unit {0})
  unfolding to_apply apply_rest
  apply_entries [] = pure tt
  apply_entries (e ∷ es) = do
    s ← get
    if ltb ((s.applied_index + 1) % 2 ^ 64) e.index
        then lift panic
        else apply_rest (to_apply (e ∷ es) e.index s.applied_index)

  unfoldable pub apply_all : List Entry → Exec (KingbusServer D G R) (Unit {0})
  unfolding apply_entries
  apply_all es = do apply_entries es; emit notify
