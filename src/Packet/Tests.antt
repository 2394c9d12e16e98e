-- ===== src/Packet/Tests.antt =====
-- A packet at concrete bytes.
use kingbus.Common.{
  ℕ, ◌%◌, List, ap, err, invalid_length, length, length-replicate, replicate, ◌≡◌, [], ◌∷◌, ◌++◌,
  arith, ok, ◌>>=◌,
}
use kingbus.Packet.{read_packet, write_packet}
use kingbus.Packet.Send.{send_events}
use kingbus.Packet.Pieces.{send_divided}
use kingbus.Divide.{max_payload_len, SourceEvent, divide_binlog_event}
use kingbus.Packet.FullPackets.{read_packet-write_packet_full}
use kingbus.Packet.RoundTrip.{read_packet-write_packet}

read_packet-write_packet_example :
    read_packet (record { input = (write_packet 255 (3 ∷ 1 ∷ [])).0 ++ 9 ∷ []; sequence = 255 })
    ≡ (ok (3 ∷ 1 ∷ []), record { input = 9 ∷ []; sequence = (write_packet 255 (3 ∷ 1 ∷ [])).1 })
read_packet-write_packet_example = read_packet-write_packet 255 (3 ∷ 1 ∷ []) (9 ∷ []) (omega arith)

abbrev small_event : SourceEvent
small_event = record { event_type = 30; event_size = 2; raw_data = 7 ∷ 8 ∷ [] }

send_divided_example :
    (divide_binlog_event small_event >>= send_events 4) ≡ ok (write_packet 4 (0 ∷ 7 ∷ 8 ∷ []))
send_divided_example = send_divided small_event 4 (omega arith) (omega arith)

-- The bytes of a full packet stay folded.
full_payload : List ℕ
full_payload = replicate max_payload_len 7

length-full_payload : length full_payload ≡ max_payload_len
unfolding full_payload
length-full_payload = length-replicate {A = ℕ} max_payload_len 7

read_packet-write_packet_full_example :
    (read_packet (record { input = (write_packet 0 full_payload).0 ++ []; sequence = 0 })).0
    ≡ err invalid_length
read_packet-write_packet_full_example =
    read_packet-write_packet_full 0 full_payload []
      (ap (λ n. n % max_payload_len) length-full_payload)
