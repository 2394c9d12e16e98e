-- ===== src/Packet/Send.antt =====
-- The loop of handleBinlogDumpGtid, mysql/command.go, that sends the events to a slave.
use kingbus.Common.{
  ℕ, ◌+◌, ◌-◌, ◌%◌, ◌^◌, true, false, ◌&&◌, ◌||◌, List, [], ◌∷◌, ◌++◌, ltb, ◌==◌, if◌then◌else◌,
  Result, ok, ◌>>=◌, length,
}
use kingbus.Divide.{max_payload_len, BinlogEvent}
use kingbus.Packet.{write_event}

-- One event. An event that is not divided, or is the first piece, goes behind an OK byte; a last piece that
-- fills its packet is followed by an empty packet.
unfoldable pub send_event : ℕ → BinlogEvent → Result (List ℕ × ℕ)
unfolding write_event
send_event sequence event =
    if event.divided_count == 0 || (ltb 0 event.divided_count && event.divided_seq_num == 0)
    then write_event sequence event.payload true
    else write_event sequence event.payload false >>= λ sent.
        if event.divided_seq_num == (event.divided_count + 2 ^ 32 - 1) % 2 ^ 32
          && length event.payload == max_payload_len
        then (write_event sent.1 [] false >>= λ empty. ok (sent.0 ++ empty.0, empty.1))
        else ok sent

unfoldable pub send_events : ℕ → List BinlogEvent → Result (List ℕ × ℕ)
unfolding send_event
send_events sequence [] = ok ([], sequence)
send_events sequence (e ∷ es) = do
  sent ← send_event sequence e
  rest ← send_events sent.1 es
  ok (sent.0 ++ rest.0, rest.1)
