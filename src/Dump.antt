-- ===== src/Dump.antt =====
-- server/binlog_server.go: the binlog as a slave gets it. The connections, the channels and the
-- goroutine are not modelled: an event that is sent is added to a list.
pub mod Groups
pub mod Catch
pub mod Stored
mod Tests
use kingbus.Common.{
  ℕ, zero, suc, ◌+◌, ◌-◌, Bool, true, false, not, Option, none, some, List, [], ◌∷◌, ◌++◌, length,
  leb, ◌==◌, drop, slice_from, bytes_eq, if◌then◌else◌, Error, decode_error, not_contain,
  args_illegal, uuid_is_null, Result, ok, err, panic, ◌>>=◌,
}
use kingbus.Exec.{must}
use kingbus.Storage.Env.{Entry}
use kingbus.Store.{gtid_purged, master_info}
use kingbus.Bolt.{Bolt}
use kingbus.Gtids.{Gtids}
use kingbus.MetaStore.{get_value, get_fde}
use kingbus.MetaStore.Gtid.{get_gtid_set}
use kingbus.Boundary.{EventType, gtid_event, rotate_event}
use kingbus.Divide.{BinlogEvent}
use kingbus.Progress.{event_header_size, without_checksum, or_decode_error}
use kingbus.Apply.Binlog.{BinlogCodec}
use kingbus.Apply.Entries.{is_binlog_event}

module _ {S : Type 0} where
  unfoldable pub without_slave : List ℕ → List (List ℕ × S) → List (List ℕ × S)
  without_slave uuid [] = []
  without_slave uuid ((u, s) ∷ ss) =
      let rest = without_slave uuid ss in if bytes_eq u uuid then rest else (u, s) ∷ rest

  unfoldable pub find_slave : List ℕ → List (List ℕ × S) → Option S
  find_slave uuid [] = none
  find_slave uuid ((u, s) ∷ ss) =
      let rest = find_slave uuid ss in if bytes_eq u uuid then some s else rest

  -- The map of slaves by uuid: a second registration takes the place of the first.
  unfoldable pub register_slave : List ℕ → S → List (List ℕ × S) → Result (List (List ℕ × S))
  unfolding without_slave
  register_slave uuid s ss =
      if length uuid == 0 then err uuid_is_null else ok ((uuid, s) ∷ without_slave uuid ss)

  -- The slave that is closed, and the others.
  unfoldable pub unregister_slave : List ℕ → List (List ℕ × S) → Option S × List (List ℕ × S)
  unfolding find_slave without_slave
  unregister_slave uuid ss = (find_slave uuid ss, without_slave uuid ss)

-- What the loop of DumpBinlogAt keeps; `sent` stands for the channel of events.
pub record DumpState : Type 0 where
  pub next_raft_index : ℕ
  pub in_exclude_group : Bool
  pub sent : List BinlogEvent

unfoldable pub pushed : BinlogEvent → Bool → DumpState → DumpState
pushed event skip s = record s {
  in_exclude_group = skip;
  sent = if skip then s.sent else s.sent ++ event ∷ [];
}

-- The cases of the switch of skipEvent.
pub data GroupKind : Type 0 where
  begins ends inner : GroupKind

unfoldable pub kind_of : EventType → GroupKind
kind_of gtid_event = begins
kind_of rotate_event = ends
kind_of _ = inner

module _ {G U : Type 0} (g : Gtids G U) (codec : BinlogCodec G) where
  -- The set of the gtid that a GTID_EVENT announces.
  unfoldable pub announced : List ℕ → Result G
  announced raw = slice_from raw event_header_size >>= λ rest. without_checksum rest >>= λ body.
      or_decode_error (codec.decode_gtid body) >>= λ e.
      or_decode_error (codec.uuid_from_bytes e.0) >>= λ u.
      or_decode_error (g.parse (u ++ b':' ∷ codec.format_int e.1))

  -- Whether the slave has it; an event that cannot be decoded is skipped.
  unfoldable pub has_announced : G → Result G → Result Bool
  has_announced slave (ok x) = ok (g.contain slave x)
  has_announced slave (err e) = ok true
  has_announced slave panic = panic

  unfoldable pub skip_kind : GroupKind → List ℕ → G → Bool → Result Bool
  unfolding announced has_announced
  skip_kind begins raw slave in_group = has_announced slave (announced raw)
  skip_kind ends raw slave in_group = ok false
  skip_kind inner raw slave in_group = ok in_group

  unfoldable pub skip_event : BinlogEvent → G → Bool → Result Bool
  unfolding skip_kind kind_of
  skip_event e slave in_group =
      skip_kind (kind_of (codec.event_type_of e.event_type)) e.payload slave in_group

  -- Nothing is sent of an entry that is no binlog event.
  unfoldable pub send_if : Bool → G → Entry → DumpState → Result DumpState
  unfolding skip_event pushed
  send_if false slave e s = ok s
  send_if true slave e s = must (codec.unmarshal_event (drop 1 e.payload)) >>= λ event.
      skip_event event slave s.in_exclude_group >>= λ skip. ok (pushed event skip s)

  -- The entry is read, and its event sent or not.
  unfoldable pub send_entry : G → Entry → DumpState → Result DumpState
  unfolding send_if
  send_entry slave e s = send_if (is_binlog_event e) slave e s

  -- One round of the loop, where the reader gives the entries of `log`: an entry that is applied is
  -- read, another is waited for.
  unfoldable pub dump_round : G → (ℕ → Result Entry) → ℕ → DumpState → Result DumpState
  unfolding send_entry
  dump_round slave log applied s =
      if leb s.next_raft_index applied
      then (log s.next_raft_index >>= λ e.
          send_entry slave e (record s { next_raft_index = s.next_raft_index + 1 }))
      else ok s

  unfoldable pub dump_rounds : ℕ → G → (ℕ → Result Entry) → ℕ → DumpState → Result DumpState
  unfolding dump_round
  dump_rounds zero slave log applied s = ok s
  dump_rounds (suc n) slave log applied s =
      dump_round slave log applied s >>= λ t. dump_rounds n slave log applied t

module _ {D G U : Type 0} (b : Bolt D) (g : Gtids G U) where
  -- The sets of servers that both have; `contains` compares the intervals of two of them.
  sets_contained : (U → U → Bool) → (List ℕ → Option U) → List (List ℕ × U) → Bool
  sets_contained contains master [] = true
  sets_contained contains master ((uid, set) ∷ sets) =
      let rest = sets_contained contains master sets in
      elim (master uid) [ none ↦ rest | some m ↦ if contains m set then rest else false ]

  -- CheckGtidSet, with the text of the executed set; an error of the store leaves no set, `nil`,
  -- which no set contains.
  unfoldable pub check_gtid_set :
      (U → U → Bool) → (G → List ℕ → Option U) → List ℕ → G → D → Result (Unit {0})
  unfolding sets_contained get_gtid_set
  check_gtid_set contains set_of executed slave d = or_decode_error (g.parse executed) >>= λ master.
      if not (sets_contained contains (set_of master) (g.sets slave))
      then err not_contain
      else elim (get_gtid_set b g gtid_purged d) [
        | ok purged ↦ if g.contain slave purged then ok tt else err not_contain
        | err _ ↦ err not_contain
        | panic ↦ panic
      ]

  -- GetFde of the server, which returns no error of the store's.
  unfoldable pub get_server_fde : ℕ → D → Result (Option (List ℕ))
  unfolding get_fde
  get_server_fde pre d =
      if pre == 0
      then err args_illegal
      else elim (get_fde b pre d) [ ok v ↦ ok (some v) | err _ ↦ ok none | panic ↦ panic ]

  unfoldable pub get_master_info : {M : Type 0} → M → (List ℕ → Option M) → D → Result M
  unfolding get_value
  get_master_info no_info decode d = get_value b master_info d >>= λ v. elim v [
    | none ↦ ok no_info
    | some w ↦ or_decode_error (decode w)
  ]
