-- ===== src/Syncer.antt =====
-- server/binlog_syncer.go: the syncer's questions to the master, its start and its end. The client of
-- go-mysql and the encodings are parameters, with the state that the client keeps; a channel is the
-- list of what was sent to it. Divide.antt has the events that it proposes.
pub mod Ask
pub mod Told
pub mod Started
pub mod Server
mod Tests
use kingbus.Common.{
  ℕ, zero, suc, ◌%◌, ◌^◌, Bool, true, false, not, List, [], ◌∷◌, ◌++◌, bytes_eq, if◌then◌else◌,
  ◌==◌, Error, unsupport, bad_conn, Result, ok, err, panic,
}
use kingbus.Exec.{Exec, ◌>>=◌, ◌>>◌, pure, raise, lift, get, put}
use kingbus.Apply.Entries.{master_info_type, master_gtid_purged_type}
use kingbus.Divide.{FlavorType, BinlogEvent, SourceEvent, propose_binlog_event}

-- What the client answers; `broken` is the error that equals ErrBadConn of mysql/errors.go.
pub data Reply (A : Type 0) : Type 0 where
  answered : A → Reply A
  refused : Error → Reply A
  broken : Reply A

-- The queries that a syncer asks the master, `SELECT` and the variable or the version.
pub data Query : Type 0 where
  gtid_purged gtid_mode binlog_format global_server_id global_server_uuid version : Query

-- The client of the master and the replication of go-mysql; A is a result of a query, G a gtid set. get_int
-- returns the 64 bits of a number.
pub record Client (W A G : Type 0) : Type 0 where
  pub connect : Exec W (Unit {0})
  pub query : Query → W → Reply A × W
  pub start_sync : G → Exec W (Unit {0})
  pub get_string : A → Result (List ℕ)
  pub get_int : A → Result ℕ

-- mysql.MasterInfo; server_id keeps the bits that the code reads as signed.
pub record MasterInfo : Type 0 where
  pub server_id : ℕ
  pub server_uuid : List ℕ
  pub master_version : List ℕ

pub record Encodings : Type 0 where
  pub encode_info : MasterInfo → Result (List ℕ)
  pub encode_purged : List ℕ → Result (List ℕ)

-- A syncer with the state of its client; `conn` is whether there is a connection.
pub record Syncer (W : Type 0) : Type 0 where
  pub started : Bool
  pub conn : Bool
  pub cancelled : Bool
  pub data_c : List (List ℕ)
  pub binlog_event_c : List BinlogEvent
  pub world : W

unfoldable pub new_syncer : {W : Type 0} → W → Syncer W
new_syncer w = record {
  started = false;
  conn = false;
  cancelled = false;
  data_c = [];
  binlog_event_c = [];
  world = w;
}

-- A channel of data; a send to it waits for room, or is given up where the syncer is cancelled. Where
-- it is cancelled and there is room Go may send as well.
unfoldable pub send_data : {W : Type 0} → List ℕ → Exec (Syncer W) (Unit {0})
send_data v s = (ok tt, if s.cancelled then s else record s { data_c = s.data_c ++ v ∷ [] })

unfoldable pub propose_master_gtid_purged :
    {W : Type 0} → Encodings → List ℕ → Exec (Syncer W) (Unit {0})
unfolding send_data
propose_master_gtid_purged code gtids =
    lift (code.encode_purged gtids) >>= λ v. send_data (master_gtid_purged_type ∷ v)

-- The rounds of Execute, and the type of an event that is no event of the binlog.
abbrev pub retry_num : ℕ
retry_num = 3

abbrev pub heartbeat_event : ℕ
heartbeat_event = 27

-- A value that cannot be read is the empty text.
abbrev pub text_or_empty : Result (List ℕ) → List ℕ
text_or_empty (ok v) = v
text_or_empty _ = []

-- The texts "ON" and "ROW".
abbrev pub on_text : List ℕ
on_text = 79 ∷ 78 ∷ []

abbrev pub row_text : List ℕ
row_text = 82 ∷ 79 ∷ 87 ∷ []

module _ {W A G : Type 0} (client : Client W A G) where
  -- A call of the client that is no query.
  abbrev pub on_world : {B : Type 0} → Exec W B → Exec (Syncer W) B
  on_world m s = let (r, w) = m s.world in (r, record s { world = w })

  -- The connection that Execute makes where there is none.
  unfoldable pub connect_unless : Bool → Exec (Syncer W) (Unit {0})
  connect_unless true s = (ok tt, s)
  connect_unless false s =
      let (r, w) = client.connect s.world in
      (r, record s { conn = elim r [ ok x ↦ true | err e ↦ false | panic ↦ false ]; world = w })

  unfoldable pub ensure_connected : Exec (Syncer W) (Unit {0})
  unfolding connect_unless
  ensure_connected s = connect_unless s.conn s

  -- What Execute makes of an answer; `again` is the next round of its loop.
  unfoldable pub on_reply : Reply A × W → Exec (Syncer W) A → Exec (Syncer W) A
  on_reply (answered a, w) again s = (ok a, record s { world = w })
  on_reply (refused e, w) again s = (err e, record s { world = w })
  on_reply (broken, w) again s = again (record s { conn = false; world = w })

  -- The loop of Execute: the rounds that are left.
  unfoldable pub execute_from : ℕ → Query → Exec (Syncer W) A
  unfolding ensure_connected on_reply
  execute_from zero q = raise bad_conn
  execute_from (suc n) q =
      ensure_connected >>= λ x s. on_reply (client.query q s.world) (execute_from n q) s

  unfoldable pub execute : Query → Exec (Syncer W) A
  unfolding execute_from
  execute = execute_from retry_num

  unfoldable pub get_master_gtid_purged : Exec (Syncer W) (List ℕ)
  unfolding execute
  get_master_gtid_purged = execute gtid_purged >>= λ a. lift (client.get_string a)

  -- A variable of the master that has to be as it is wanted.
  unfoldable pub wants : List ℕ → A → Exec (Syncer W) (Unit {0})
  wants v a s =
      (if bytes_eq (text_or_empty (client.get_string a)) v then ok tt else err unsupport, s)

  unfoldable pub pre_check : Exec (Syncer W) (Unit {0})
  unfolding execute wants
  pre_check =
      execute gtid_mode >>= λ a. wants on_text a >>= λ x. execute binlog_format >>= wants row_text

  module _ (code : Encodings) where
    unfoldable pub get_master_info : Exec (Syncer W) (Unit {0})
    unfolding execute send_data
    get_master_info = do
      a ← execute global_server_id
      id ← lift (client.get_int a)
      b ← execute global_server_uuid
      uuid ← lift (client.get_string b)
      c ← execute version
      v ← lift (client.get_string c)
      info ← lift (
          code.encode_info
            (record { server_id = id % 2 ^ 32; server_uuid = uuid; master_version = v }))
      send_data (master_info_type ∷ info)

    -- Start, up to the goroutine that receives.
    unfoldable pub start : G → Exec (Syncer W) (Unit {0})
    unfolding pre_check get_master_info
    start gtids = pre_check >>= λ x. get_master_info >>= λ y.
        on_world (client.start_sync gtids) >>= λ z s. (ok tt, record s { started = true })

  -- A round of the goroutine for an event that was received; an error of the proposal is fatal.
  unfoldable pub take_event : FlavorType → SourceEvent → Exec (Syncer W) (Unit {0})
  unfolding propose_binlog_event
  take_event flavor src s = elim (src.event_type == heartbeat_event) [
    | true ↦ (ok tt, s)
    | false ↦ elim (propose_binlog_event flavor src) [
      | ok es ↦
          (ok tt, if s.cancelled then s else record s { binlog_event_c = s.binlog_event_c ++ es })
      | err e ↦ (panic, s)
      | panic ↦ (panic, s)
    ]
  ]

  -- Stop, by whether the syncer is started and has a connection; to close one that is not there is a
  -- panic.
  unfoldable pub stop_as : Bool → Bool → Exec (Syncer W) (Unit {0})
  stop_as false conn s = (ok tt, s)
  stop_as true false s = (panic, record s { started = false; cancelled = true })
  stop_as true true s = (ok tt, record s { started = false; cancelled = true; conn = false })

  unfoldable pub stop : Exec (Syncer W) (Unit {0})
  unfolding stop_as
  stop s = stop_as s.started s.conn s
