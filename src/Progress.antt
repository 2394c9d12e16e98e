-- ===== src/Progress.antt =====
-- server/binlog_progress.go: how far the binlog has been applied, by its transactions.
pub mod Steps
pub mod Reset
mod Tests
use kingbus.Common.{
  ℕ, ◌+◌, ◌-◌, ◌%◌, ◌^◌, Bool, true, false, not, ◌&&◌, ◌||◌, Option, none, some, List, [], length,
  ltb, ◌==◌, bytes_eq, if◌then◌else◌, Error, decode_error, invalid_length, Result, ok, err, panic,
  take, slice_from,
}
use kingbus.Common
use kingbus.Exec.{Exec, ◌>>=◌, ◌>>◌, pure, raise, lift, get, put}
use kingbus.Store.{executed_gtids}
use kingbus.Bolt.{Bolt}
use kingbus.Gtids.{Gtids}
use kingbus.MetaStore.Gtid.{get_gtid_set, set_gtid_set, set_binlog_progress}
use kingbus.Boundary.{
  TransactionBoundaryParser, EventHeader, EventBoundaryType, get_event_boundary_type, update_state,
  is_not_inside_transaction,
}
use kingbus.Boundary

-- EventHeaderSize and BinlogChecksumLength of go-mysql, and the constants of the file; times are
-- counted in nanoseconds from 1970.
abbrev pub event_header_size : ℕ
event_header_size = 19

abbrev pub binlog_checksum_length : ℕ
binlog_checksum_length = 4

abbrev pub persistent_count : ℕ
persistent_count = 10000

abbrev pub persistent_time_interval : ℕ
persistent_time_interval = 4000000000

-- The texts are byte strings.
pub record BinlogProgress (G : Type 0) : Type 0 where
  pub current_gtid : List ℕ
  pub last_save_gtid : List ℕ
  pub last_binlog_file : List ℕ
  pub last_file_position : ℕ  -- uint32
  pub executed_gtid_set_str : List ℕ
  pub trx_boundary_parser : TransactionBoundaryParser
  pub persistent_time : ℕ
  pub persistent_applied_index : ℕ  -- uint64
  pub executed_gtid_set : G

-- The progress with the store that it points to.
pub record Progress (D G : Type 0) : Type 0 where
  pub progress : BinlogProgress G
  pub store : D

-- The decoders of go-mysql that it calls: of the header, and of the text of a QUERY_EVENT.
pub record EventCodec : Type 0 where
  pub decode_header : List ℕ → Option EventHeader
  pub decode_query : List ℕ → Option (List ℕ)

abbrev pub or_decode_error : {A : Type 0} → Option A → Result A
or_decode_error none = err decode_error
or_decode_error (some a) = ok a

-- s[:len(s)-BinlogChecksumLength]
unfoldable pub without_checksum : List ℕ → Result (List ℕ)
without_checksum s =
    if ltb (length s) binlog_checksum_length
    then panic
    else ok (take (length s - binlog_checksum_length) s)

-- The event without its header and its checksum.
unfoldable pub body_of : EventHeader → List ℕ → Result (List ℕ)
unfolding without_checksum
body_of h raw = Common.◌>>=◌ (slice_from raw event_header_size) λ rest.
    if not (length rest + event_header_size == h.event_size)
    then err invalid_length
    else without_checksum rest

module _ {D G U : Type 0} (b : Bolt D) (g : Gtids G U) where
  -- What a new progress and a reset one have in common.
  fresh_progress : List ℕ → G → BinlogProgress G
  fresh_progress last_save x = record {
    current_gtid = [];
    last_save_gtid = last_save;
    last_binlog_file = [];
    last_file_position = 0;
    executed_gtid_set_str = g.to_string x;
    trx_boundary_parser = Boundary.reset;
    persistent_time = 0;
    persistent_applied_index = 0;
    executed_gtid_set = x;
  }

  unfoldable pub new_binlog_progress : D → Result (BinlogProgress G)
  unfolding get_gtid_set fresh_progress
  new_binlog_progress d = elim (get_gtid_set b g executed_gtids d) [
    | ok x ↦ ok (fresh_progress [] x)
    | err e ↦ err e
    | panic ↦ panic
  ]

  -- An operation of the store.
  abbrev pub on_store : {A : Type 0} → Exec D A → Exec (Progress D G) A
  on_store m s = let (r, d) = m s.store in (r, record s { store = d })

  unfoldable pub save_gtids : List ℕ → Exec (Progress D G) (Unit {0})
  unfolding set_gtid_set
  save_gtids gtids = do
    s ← get
    x ← lift (or_decode_error (g.update gtids s.progress.executed_gtid_set))
    put (record s { progress = record s.progress { executed_gtid_set = x } })
    on_store (set_gtid_set b g executed_gtids x)

  -- The fields are reset first; the text of the set is written at the end.
  unfoldable pub reset : List ℕ → Exec (Progress D G) (Unit {0})
  unfolding save_gtids
  reset gtids = do
    s ← get
    put (record s {
      progress = record s.progress {
        current_gtid = [];
        last_binlog_file = [];
        last_file_position = 0;
        trx_boundary_parser = Boundary.reset;
        persistent_time = 0;
        persistent_applied_index = 0;
      };
    })
    if length gtids == 0 then pure tt else save_gtids gtids
    t ← get
    put (record t {
      progress = record t.progress {
        executed_gtid_set_str = g.to_string t.progress.executed_gtid_set;
      };
    })

  -- The raft index and the set are saved after enough entries or enough time.
  unfoldable pub is_due : ℕ → ℕ → BinlogProgress G → Bool
  is_due raft_index now p =
      ltb persistent_count ((raft_index + 2 ^ 64 - p.persistent_applied_index) % 2 ^ 64)
      || ltb (p.persistent_time + persistent_time_interval) now

  -- `now` is the first reading of the clock, `later` the second.
  unfoldable pub persist : ℕ → ℕ → ℕ → Exec (Progress D G) (Unit {0})
  unfolding is_due set_binlog_progress
  persist raft_index now later = do
    s ← get
    if not (is_due raft_index now s.progress) then pure tt else do
      on_store (set_binlog_progress b g raft_index s.progress.executed_gtid_set)
      t ← get
      put (record t {
        progress = record t.progress {
          persistent_applied_index = raft_index;
          persistent_time = later;
        };
      })

  -- A transaction has ended: its gtid joins the executed ones.
  unfoldable pub finish : ℕ → ℕ → ℕ → Exec (Progress D G) (Unit {0})
  unfolding persist
  finish raft_index now later = do
    s ← get
    x ← lift (or_decode_error (g.update s.progress.current_gtid s.progress.executed_gtid_set))
    put (record s {
      progress = record s.progress {
        executed_gtid_set = x;
        last_save_gtid = s.progress.current_gtid;
        executed_gtid_set_str = g.to_string x;
      };
    })
    persist raft_index now later

  unfoldable pub is_finished : BinlogProgress G → Bool
  unfolding is_not_inside_transaction
  is_finished p =
      is_not_inside_transaction p.trx_boundary_parser
      && not (length p.current_gtid == 0)
      && not (bytes_eq p.last_save_gtid p.current_gtid)

  -- UpdateState is done; on its error the transaction is taken for a partial one, and dropped.
  unfoldable pub after_event :
      ℕ → ℕ → ℕ → TransactionBoundaryParser × Option Error → Exec (Progress D G) (Unit {0})
  unfolding is_finished finish
  after_event raft_index now later (parser, some _) = do
    s ← get
    put (record s {
      progress = record s.progress { trx_boundary_parser = Boundary.reset; current_gtid = [] };
    })
  after_event raft_index now later (parser, none) = do
    s ← get
    let p = record s.progress { trx_boundary_parser = parser }
    put (record s { progress = p })
    if is_finished p then finish raft_index now later else pure tt

  module _ (codec : EventCodec) where
    unfoldable pub update_process : ℕ → ℕ → ℕ → List ℕ → Exec (Progress D G) (Unit {0})
    unfolding body_of get_event_boundary_type update_state after_event
    update_process raft_index now later raw = do
      h ← lift (or_decode_error (codec.decode_header raw))
      s ← get
      put (record s { progress = record s.progress { last_file_position = h.log_pos } })
      body ← lift (body_of h raw)
      boundary ← lift (get_event_boundary_type codec.decode_query h body)
      t ← get
      after_event raft_index now later (update_state t.progress.trx_boundary_parser boundary)
