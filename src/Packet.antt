-- ===== src/Packet.antt =====
-- mysql/base_conn.go: packets of the MySQL protocol, and the packets of binlog events.
pub mod RoundTrip
pub mod FullPackets
pub mod Send
pub mod Pieces
mod Tests
use kingbus.Common.{
  ℕ, zero, suc, ◌+◌, ◌*◌, ◌/◌, ◌%◌, ◌^◌, Bool, true, false, not, List, [], ◌∷◌, ◌++◌, leb, ltb,
  ◌==◌, if◌then◌else◌, Error, large_packet, invalid_length, invalid_sequence, unexpected_eof,
  Result, ok, err, panic, length, take, drop,
}
use kingbus.Exec.{Exec, ◌>>=◌, ◌>>◌, pure, raise, lift, get, put}
use kingbus.Divide.{max_payload_len, ok_header_byte}

-- The bytes that are to be read, and the number of the next packet, a uint8.
pub record BaseConn : Type 0 where
  pub input : List ℕ
  pub sequence : ℕ

-- The payload length in three bytes, and the number of the packet.
unfoldable pub packet_header : ℕ → ℕ → List ℕ
packet_header n sequence = n % 2 ^ 8 ∷ n / 2 ^ 8 % 2 ^ 8 ∷ n / 2 ^ 16 % 2 ^ 8 ∷ sequence ∷ []

unfoldable pub header_length : List ℕ → ℕ
header_length (a ∷ b ∷ c ∷ rest) = a + b * 2 ^ 8 + c * 2 ^ 16
header_length _ = 0

unfoldable pub header_sequence : List ℕ → ℕ
header_sequence (a ∷ b ∷ c ∷ d ∷ rest) = d
header_sequence _ = 0

-- io.ReadFull and io.CopyN: that many bytes, or an error once the input is used up.
unfoldable pub read_full : ℕ → Exec BaseConn (List ℕ)
read_full n = do
  c ← get
  put (record c { input = drop n c.input })
  if ltb (length c.input) n then raise unexpected_eof else pure (take n c.input)

-- ReadPacketTo, with the payload as the result. Each packet takes bytes of the input, so there
-- are no more of them than bytes.
unfoldable pub read_packet_to : ℕ → Exec BaseConn (List ℕ)
unfolding header_length header_sequence read_full
read_packet_to zero = lift panic
read_packet_to (suc fuel) = do
  c ← get
  header ← read_full 4
  if header_length header == 0
      then raise invalid_length
      else if not (header_sequence header == c.sequence)
      then raise invalid_sequence
      else do
        d ← get
        put (record d { sequence = (c.sequence + 1) % 2 ^ 8 })
        payload ← read_full (header_length header)
        if ltb (header_length header) max_payload_len
            then pure payload
            else do more ← read_packet_to fuel; pure (payload ++ more)

unfoldable pub read_packet : Exec BaseConn (List ℕ)
unfolding read_packet_to
read_packet = do c ← get; read_packet_to (suc (length c.input))

-- The bytes that are written, and the next number. The code leaves four bytes of room before the
-- payload; the room of a later packet is the end of the one before, which has been sent.
unfoldable pub write_from : ℕ → ℕ → List ℕ → List ℕ × ℕ
unfolding packet_header
write_from zero sequence payload = ([], sequence)
write_from (suc fuel) sequence payload =
    let (more, next) = write_from fuel ((sequence + 1) % 2 ^ 8) (drop max_payload_len payload) in
    if leb max_payload_len (length payload)
    then (packet_header max_payload_len sequence ++ (take max_payload_len payload ++ more), next)
    else (packet_header (length payload) sequence ++ payload, (sequence + 1) % 2 ^ 8)

-- WritePacket, where the connection takes every byte. Each round but the last sends some of the
-- payload, so one more than its bytes are enough.
unfoldable pub write_packet : ℕ → List ℕ → List ℕ × ℕ
unfolding write_from
write_packet sequence payload = write_from (suc (length payload)) sequence payload

-- WriteEvent, likewise; the first event of a packet has an OK byte before it.
unfoldable pub write_event : ℕ → List ℕ → Bool → Result (List ℕ × ℕ)
unfolding packet_header
write_event sequence payload first =
    let packet_len = if first then length payload + ok_header_byte else length payload in
    if ltb max_payload_len packet_len
    then err large_packet
    else ok (
      packet_header packet_len sequence ++ ((if first then 0 ∷ [] else []) ++ payload),
      (sequence + 1) % 2 ^ 8,
    )
