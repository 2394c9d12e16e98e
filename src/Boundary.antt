-- ===== src/Boundary.antt =====
-- mysql/trx_boundary_parser.go: the transaction boundary parser over a stream of binlog events.
-- The decoder of QUERY_EVENT bodies (go-mysql) is a parameter; a body is a list of bytes.
pub mod Grammar
pub mod Query
pub mod Stream
pub mod Events
pub mod Documented
mod Tests
use Prim.Native.Char.{code}
use Prim.Native.String.{String}
use kingbus.Common.{
  bytes_eq, ℕ, ◌-◌, Bool, true, false, not, ◌&&◌, ◌||◌, Option, none, some, List, [], ◌∷◌, map, leb,
  ◌==◌, if◌then◌else◌, Error, decode_error, update_state_error, Result, ok, err, panic, ◌>>=◌,
}

-- replication.EventType: the values that the code names, and any other.
pub data EventType : Type 0 where
  gtid_event anonymous_gtid_event query_event xid_event xa_prepare_log_event : EventType
  intvar_event rand_event user_var_event : EventType
  execute_load_query_event table_map_event append_block_event begin_load_query_event : EventType
  rows_query_event write_rows_event_v2 update_rows_event_v2 delete_rows_event_v2 : EventType
  write_rows_event_v1 update_rows_event_v1 delete_rows_event_v1 : EventType
  write_rows_event_v0 update_rows_event_v0 delete_rows_event_v0 view_change_event : EventType
  incident_event : EventType
  rotate_event format_description_event heartbeat_event previous_gtids_event : EventType
  start_event_v3 stop_event load_event slave_event create_file_event delete_file_event : EventType
  new_load_event exec_load_event transaction_context_event : EventType
  other_event : ℕ → EventType

pub record EventHeader : Type 0 where
  pub event_type : EventType
  pub event_size : ℕ  -- uint32
  pub log_pos : ℕ  -- uint32
  pub flags : ℕ  -- uint16

pub data EventBoundaryType : Type 0 where
  boundary_error gtid begin_trx end_trx end_xa_trx pre_statement statement : EventBoundaryType
  incident ignore : EventBoundaryType

pub data EventParserState : Type 0 where
  parser_none parser_gtid parser_ddl parser_dml parser_error : EventParserState

pub record TransactionBoundaryParser : Type 0 where
  pub current_state : EventParserState

abbrev pub reset : TransactionBoundaryParser
reset = record { current_state = parser_none }

state_is_none : EventParserState → Bool
state_is_none parser_none = true
state_is_none _ = false

state_is_error : EventParserState → Bool
state_is_error parser_error = true
state_is_error _ = false

unfoldable pub is_inside_transaction : TransactionBoundaryParser → Bool
unfolding state_is_none state_is_error
is_inside_transaction p =
    not (state_is_error p.current_state) && not (state_is_none p.current_state)

unfoldable pub is_not_inside_transaction : TransactionBoundaryParser → Bool
unfolding state_is_none
is_not_inside_transaction p = state_is_none p.current_state

unfoldable pub is_error : TransactionBoundaryParser → Bool
unfolding state_is_error
is_error p = state_is_error p.current_state

-- LOG_EVENT_IGNORABLE_F of go-mysql
abbrev pub log_event_ignorable_f : ℕ
log_event_ignorable_f = 0x80

-- The bytes of an ASCII literal.
abbrev pub bytes : String → List ℕ
bytes String.[] = []
bytes (String.◌∷◌ c s) = code c ∷ bytes s

-- strings.ToUpper, over ASCII letters; other bytes stay as they are.
abbrev pub upper_byte : ℕ → ℕ
upper_byte c = if leb b'a' c && leb c b'z' then c - 32 else c

abbrev pub to_upper : List ℕ → List ℕ
to_upper s = map upper_byte s

-- strings.HasPrefix(s, prefix)
abbrev pub has_prefix : List ℕ → List ℕ → Bool
has_prefix s [] = true
has_prefix [] (y ∷ ys) = false
has_prefix (x ∷ xs) (y ∷ ys) = x == y && has_prefix xs ys

-- The chain of tests on the upper-case text of a QUERY_EVENT.
unfoldable pub query_boundary : List ℕ → EventBoundaryType
query_boundary query =
    if bytes_eq query (bytes "BEGIN") || bytes_eq query (bytes "XA START")
    then begin_trx
    else if has_prefix query (bytes "ROLLBACK") || has_prefix query (bytes "ROLLBACK TO ")
    then end_trx
    else if has_prefix query (bytes "XA ROLLBACK")
    then end_xa_trx
    else statement

-- The `default` of the switch on the event's type.
unsupported_boundary : ℕ → EventBoundaryType
unsupported_boundary flags = if flags == log_event_ignorable_f then ignore else boundary_error

-- `decode_query body` is the text of the query, or nothing where QueryEvent.Decode fails.
module _ (decode_query : List ℕ → Option (List ℕ)) where
  decoded_boundary : Option (List ℕ) → Result EventBoundaryType
  decoded_boundary none = err decode_error
  decoded_boundary (some query) = ok (query_boundary (to_upper query))

  boundary_of : EventType → ℕ → List ℕ → Result EventBoundaryType
  unfolding decoded_boundary unsupported_boundary
  boundary_of gtid_event flags body = ok gtid
  boundary_of anonymous_gtid_event flags body = ok gtid
  boundary_of query_event flags body = decoded_boundary (decode_query body)
  boundary_of xid_event flags body = ok end_trx
  boundary_of xa_prepare_log_event flags body = ok end_trx
  boundary_of intvar_event flags body = ok pre_statement
  boundary_of rand_event flags body = ok pre_statement
  boundary_of user_var_event flags body = ok pre_statement
  boundary_of execute_load_query_event flags body = ok statement
  boundary_of table_map_event flags body = ok statement
  boundary_of append_block_event flags body = ok statement
  boundary_of begin_load_query_event flags body = ok statement
  boundary_of rows_query_event flags body = ok statement
  boundary_of write_rows_event_v2 flags body = ok statement
  boundary_of update_rows_event_v2 flags body = ok statement
  boundary_of delete_rows_event_v2 flags body = ok statement
  boundary_of write_rows_event_v1 flags body = ok statement
  boundary_of update_rows_event_v1 flags body = ok statement
  boundary_of delete_rows_event_v1 flags body = ok statement
  boundary_of write_rows_event_v0 flags body = ok statement
  boundary_of update_rows_event_v0 flags body = ok statement
  boundary_of delete_rows_event_v0 flags body = ok statement
  boundary_of view_change_event flags body = ok statement
  boundary_of incident_event flags body = ok incident
  boundary_of rotate_event flags body = ok ignore
  boundary_of format_description_event flags body = ok ignore
  boundary_of heartbeat_event flags body = ok ignore
  boundary_of previous_gtids_event flags body = ok ignore
  boundary_of start_event_v3 flags body = ok ignore
  boundary_of stop_event flags body = ok ignore
  boundary_of load_event flags body = ok ignore
  boundary_of slave_event flags body = ok ignore
  boundary_of create_file_event flags body = ok ignore
  boundary_of delete_file_event flags body = ok ignore
  boundary_of new_load_event flags body = ok ignore
  boundary_of exec_load_event flags body = ok ignore
  boundary_of transaction_context_event flags body = ok ignore
  boundary_of (other_event n) flags body = ok (unsupported_boundary flags)

  unfoldable pub get_event_boundary_type : EventHeader → List ℕ → Result EventBoundaryType
  unfolding boundary_of
  get_event_boundary_type h body = boundary_of h.event_type h.flags body

-- The nested switch of UpdateState: the new state, and whether the event is an error there.
transition : EventBoundaryType → EventParserState → EventParserState × Option Error
transition gtid parser_none = (parser_gtid, none)
transition gtid _ = (parser_gtid, some update_state_error)
transition begin_trx parser_none = (parser_dml, none)
transition begin_trx parser_gtid = (parser_dml, none)
transition begin_trx _ = (parser_dml, some update_state_error)
transition end_trx parser_dml = (parser_none, none)
transition end_trx _ = (parser_none, some update_state_error)
transition end_xa_trx parser_dml = (parser_none, none)
transition end_xa_trx parser_gtid = (parser_none, none)
transition end_xa_trx _ = (parser_none, some update_state_error)
transition statement parser_none = (parser_none, none)
transition statement parser_gtid = (parser_none, none)
transition statement parser_ddl = (parser_none, none)
transition statement parser_dml = (parser_dml, none)
transition statement parser_error = (parser_none, some update_state_error)
transition pre_statement parser_none = (parser_ddl, none)
transition pre_statement parser_gtid = (parser_ddl, none)
transition pre_statement parser_ddl = (parser_ddl, none)
transition pre_statement parser_dml = (parser_dml, none)
transition pre_statement parser_error = (parser_none, some update_state_error)
transition incident _ = (parser_none, none)
transition ignore s = (s, none)
transition boundary_error _ = (parser_error, some update_state_error)

unfoldable pub update_state :
    TransactionBoundaryParser → EventBoundaryType → TransactionBoundaryParser × Option Error
unfolding transition
update_state p b = let (s, e) = transition b p.current_state in (record p { current_state = s }, e)
