-- ===== src/Divide.antt =====
-- server/binlog_syncer.go: how the syncer cuts a large binlog event into events that fit a packet.
pub mod Rejoin
mod Tests
use kingbus.Common.{
  ℕ, zero, suc, ◌+◌, ◌-◌, ◌/◌, ◌%◌, ◌^◌, Bool, true, false, not, List, [], ◌∷◌, ltb, ◌==◌,
  if◌then◌else◌, Result, ok, ◌>>=◌, length, slice, slice_from,
}

-- MaxPayloadLen, 1<<24 - 1, and OKHeaderByte of mysql/base_conn.go
abbrev pub max_payload_len : ℕ
max_payload_len = 16777215

abbrev pub ok_header_byte : ℕ
ok_header_byte = 1

-- storagepb.FlavorType
pub data FlavorType : Type 0 where
  mysql maria : FlavorType

-- storagepb.BinlogEvent; the type of the event is its number.
pub record BinlogEvent : Type 0 where
  pub event_type : ℕ  -- uint32
  pub flavor : FlavorType
  pub divided_count : ℕ  -- uint32
  pub divided_seq_num : ℕ  -- uint32
  pub payload : List ℕ

-- What the code reads of go-mysql's replication.BinlogEvent.
pub record SourceEvent : Type 0 where
  pub event_type : ℕ
  pub event_size : ℕ  -- uint32
  pub raw_data : List ℕ

-- The number of pieces, as uint32.
unfoldable pub divided_count_of : ℕ → ℕ
divided_count_of len =
    let count = (len + ok_header_byte) / max_payload_len % 2 ^ 32 in
    if not (len % max_payload_len == 0) then (count + 1) % 2 ^ 32 else count

unfoldable pub max_event_data_size : ℕ → ℕ
max_event_data_size i = if i == 0 then max_payload_len - 1 else max_payload_len

unfoldable pub piece_data : List ℕ → ℕ → ℕ → Result (List ℕ)
piece_data raw pos size =
    if ltb (pos + size) (length raw) then slice raw pos (pos + size) else slice_from raw pos

-- The loop over the pieces: the rounds that are left, `i`, `pos`.
unfoldable pub divide_from : SourceEvent → ℕ → ℕ → ℕ → ℕ → Result (List BinlogEvent)
unfolding max_event_data_size piece_data
divide_from src count zero i pos = ok []
divide_from src count (suc n) i pos = do
  piece ← piece_data src.raw_data pos (max_event_data_size i)
  rest ← divide_from src count n (i + 1) (pos + max_event_data_size i)
  ok (
      record {
        event_type = src.event_type;
        flavor = mysql;
        divided_count = count;
        divided_seq_num = i;
        payload = piece;
      }
      ∷ rest)

-- Both branches of the test on the flavor set the MySQL flavor, so the flavor is no argument.
unfoldable pub divide_binlog_event : SourceEvent → Result (List BinlogEvent)
unfolding divide_from divided_count_of
divide_binlog_event src =
    let count = divided_count_of (length src.raw_data) in divide_from src count count 0 0

-- What proposeBinlogEvent sends to the channel of events, where the syncer is not stopped.
unfoldable pub propose_binlog_event : FlavorType → SourceEvent → Result (List BinlogEvent)
propose_binlog_event flavor src =
    if ltb ((src.event_size + ok_header_byte) % 2 ^ 32) max_payload_len
    then ok (
        record {
          event_type = src.event_type;
          flavor = flavor;
          divided_count = 0;
          divided_seq_num = 0;
          payload = src.raw_data;
        }
        ∷ [])
    else divide_binlog_event src
