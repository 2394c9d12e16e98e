-- ===== src/Apply/Binlog.antt =====
-- server/apply.go: applyMySQLBinlogEvent, applyBinlogEvent, applyMasterGtidPurged.
use kingbus.Common.{
  ℕ, Bool, true, false, not, ◌&&◌, ◌||◌, Option, List, [], ◌∷◌, ◌++◌, ◌==◌, if◌then◌else◌,
  slice_from, unsupport, ok,
}
use kingbus.Exec.{Exec, ◌>>=◌, ◌>>◌, pure, raise, lift, get, must}
use kingbus.Store.{fde, next_binlog, gtid_purged, at}
use kingbus.Bolt.{Bolt}
use kingbus.Gtids.{Gtids}
use kingbus.MetaStore.{set_value}
use kingbus.MetaStore.Gtid.{get_gtid_set, set_gtid_set, set_previous_gtid_set}
use kingbus.Boundary.{
  EventType, gtid_event, format_description_event, rotate_event, previous_gtids_event,
}
use kingbus.Divide.{BinlogEvent}
use kingbus.Progress.{
  Progress, EventCodec, event_header_size, without_checksum, or_decode_error, update_process, reset,
}
use kingbus.Apply.{KingbusServer, on_store, or_fatal}

-- What the application of binlog events calls of go-mysql, of uuid and of the protobuf codec.
pub record BinlogCodec (G : Type 0) : Type 0 where
  pub events : EventCodec
  pub unmarshal_event : List ℕ → Option BinlogEvent
  pub event_type_of : ℕ → EventType
  pub decode_gtid : List ℕ → Option (List ℕ × ℕ)  -- SID and GNO
  pub uuid_from_bytes : List ℕ → Option (List ℕ)  -- as text
  pub format_int : ℕ → List ℕ  -- "%d"
  pub decode_rotate : List ℕ → Option (List ℕ)  -- NextLogName
  pub decode_previous_gtids : List ℕ → Option G

unfoldable pub need_apply : EventType → Bool
need_apply gtid_event = true
need_apply format_description_event = true
need_apply rotate_event = true
need_apply previous_gtids_event = true
need_apply _ = false

-- The first piece of an event, or the whole of one that is not divided, moves the progress.
unfoldable pub is_first_piece : BinlogEvent → Bool
is_first_piece e = e.divided_count == 0 || (not (e.divided_count == 0) && e.divided_seq_num == 0)

-- The sets of the master whose server has no set here yet.
unfoldable pub add_missing : {G U : Type 0} → Gtids G U → List (List ℕ × U) → G → G
add_missing g [] x = x
add_missing g ((uuid, set) ∷ sets) x =
    add_missing g sets (if g.has_uuid uuid x then x else g.add_set set x)

module _ {D G R : Type 0} where
  abbrev pub on_progress : {A : Type 0} → Exec (Progress D G) A → Exec (KingbusServer D G R) A
  on_progress m s =
      let (r, p) = m (record { progress = s.binlog_progress; store = s.store }) in
      (r, record s { binlog_progress = p.progress; store = p.store })

  unfoldable pub set_current_gtid : List ℕ → Exec (KingbusServer D G R) (Unit {0})
  set_current_gtid v s =
      (ok tt, record s { binlog_progress = record s.binlog_progress { current_gtid = v } })

  unfoldable pub set_last_binlog_file : List ℕ → Exec (KingbusServer D G R) (Unit {0})
  set_last_binlog_file v s =
      (ok tt, record s { binlog_progress = record s.binlog_progress { last_binlog_file = v } })

module _ {D G U R : Type 0} (b : Bolt D) (g : Gtids G U) (codec : BinlogCodec G) where
  -- The switch on the type, with the body of the event, and its raft index.
  unfoldable pub apply_body : EventType → List ℕ → ℕ → Exec (KingbusServer D G R) (Unit {0})
  unfolding set_current_gtid set_last_binlog_file set_value set_previous_gtid_set
  apply_body gtid_event body index = do
    e ← lift (or_decode_error (codec.decode_gtid body))
    u ← lift (or_decode_error (codec.uuid_from_bytes e.0))
    set_current_gtid (u ++ b':' ∷ codec.format_int e.1)
  apply_body rotate_event body index = do
    name ← lift (or_decode_error (codec.decode_rotate body))
    on_store (set_value b (at next_binlog index) name)
    set_last_binlog_file name
  apply_body previous_gtids_event body index = do
    x ← lift (or_decode_error (codec.decode_previous_gtids body))
    on_store (set_previous_gtid_set b g index x)
  apply_body _ body index = raise unsupport

  unfoldable pub apply_binlog_event : List ℕ → EventType → ℕ → Exec (KingbusServer D G R) (Unit {0})
  unfolding apply_body set_value without_checksum
  apply_binlog_event raw format_description_event index = on_store (set_value b (at fde index) raw)
  apply_binlog_event raw kind index = do
    rest ← lift (slice_from raw event_header_size)
    body ← lift (without_checksum rest)
    apply_body kind body index

  -- `now` and `later` are the readings of the clock.
  unfoldable pub apply_my_sql_binlog_event :
      ℕ → ℕ → ℕ → List ℕ → Exec (KingbusServer D G R) (Unit {0})
  unfolding is_first_piece update_process need_apply apply_binlog_event
  apply_my_sql_binlog_event index now later content = do
    e ← lift (must (codec.unmarshal_event content))
    if is_first_piece e
        then or_fatal (on_progress (update_process b g codec.events index now later e.payload))
        else pure tt
    if need_apply (codec.event_type_of e.event_type)
        then or_fatal (apply_binlog_event e.payload (codec.event_type_of e.event_type) index)
        else pure tt

  -- The text of the master's gtids that have been purged.
  unfoldable pub apply_master_gtid_purged : List ℕ → Exec (KingbusServer D G R) (Unit {0})
  unfolding add_missing get_gtid_set set_gtid_set reset
  apply_master_gtid_purged text = do
    master ← lift (must (g.parse text))
    s ← get
    purged ← or_fatal (lift (get_gtid_set b g gtid_purged s.store))
    or_fatal (on_store (set_gtid_set b g gtid_purged (add_missing g (g.sets master) purged)))
    or_fatal (on_progress (reset b g text))
