-- ===== src/Packet/Pieces.antt =====
-- What a divided event becomes on the wire.
use native.Mathlib.Numerals.{add-one}
use kingbus.Common.{
  ℕ, zero, suc, ◌+◌, ◌-◌, ◌*◌, ◌/◌, ◌%◌, ◌^◌, ◌≤◌, ◌<◌, ◌≡◌, ◌≢◌, refl, ap, ◌∙◌, true, false, List,
  [], ◌∷◌, ◌++◌, append_assoc, append-nil, arith, leb, le→leb, Result, ok, err, panic, ◌>>=◌,
  length, length-take, length-drop, take, drop, drop-drop, take_all,
}
use kingbus.Divide.{
  max_payload_len, BinlogEvent, SourceEvent, mysql, piece_data, max_event_data_size, divide_from,
  divided_count_of, divide_binlog_event,
}
use kingbus.Divide.Rejoin.{piece_data_lem, later_piece}
use kingbus.Packet.Send.{send_event, send_events}
use kingbus.Packet.{packet_header, write_from, write_packet, write_event}

abbrev piece_of : SourceEvent → ℕ → ℕ → List ℕ → BinlogEvent
piece_of src count i bytes = record {
  event_type = src.event_type;
  flavor = mysql;
  divided_count = count;
  divided_seq_num = i;
  payload = bytes;
}

send_later :
    (src : SourceEvent) (count i s : ℕ) (bytes : List ℕ)
    → 0 < i
    → i < count
    → count < 2 ^ 32
    → length bytes ≤ max_payload_len
    → (length bytes ≡ max_payload_len → i + 1 ≢ count)
    → send_event s (piece_of src count i bytes)
      ≡ ok (packet_header (length bytes) s ++ bytes, (s + 1) % 2 ^ 8)
unfolding send_event write_event
send_later src count i s bytes p c b h full = ground (arith, full)

send_first :
    (src : SourceEvent) (count s : ℕ) (bytes : List ℕ)
    → length bytes + 1 ≤ max_payload_len
    → send_event s (piece_of src count 0 bytes)
      ≡ ok (packet_header (length bytes + 1) s ++ (0 ∷ bytes), (s + 1) % 2 ^ 8)
unfolding send_event write_event
send_first src count s bytes h = ground arith

-- A piece is sent, and then those that are still to be cut.
send_then :
    (m : Result (List BinlogEvent)) (e : BinlogEvent) (s t : ℕ) (b : List ℕ) (r : List ℕ × ℕ)
    → send_event s e ≡ ok (b, t)
    → (m >>= send_events t) ≡ ok r
    → ((m >>= λ es. ok (e ∷ es)) >>= send_events s) ≡ ok (b ++ r.0, r.1)
unfolding send_events
send_then (ok es) e s t b r one rest = rw (one, rest)
send_then (err x) e s t b r one rest = cc
send_then panic e s t b r one rest = cc

-- The rounds behind the first: `n + 1` pieces are left, of which only the last does not fill its
-- packet.
send_rest :
    (src : SourceEvent) (count n i pos s f : ℕ)
    → 0 < i
    → count ≡ i + suc n
    → count < 2 ^ 32
    → pos + n * max_payload_len ≤ length src.raw_data
    → length src.raw_data < pos + n * max_payload_len + max_payload_len
    → length src.raw_data - pos < f
    → (divide_from src count (suc n) i pos >>= send_events s)
      ≡ ok (write_from f s (drop pos src.raw_data))
unfolding divide_from write_from send_events
send_rest src count n i pos s zero p c b lo hi h = absurd (omega arith)
send_rest src count zero i pos s (suc f) p c b lo hi h =
    rw (piece, later_piece i p, whole)
      (send_then (ok []) (piece_of src count i (drop pos src.raw_data)) s ((s + 1) % 2 ^ 8)
          (packet_header (length (drop pos src.raw_data)) s ++ drop pos src.raw_data)
          ([], (s + 1) % 2 ^ 8)
          (send_later src count i s (drop pos src.raw_data) p (omega arith) b (omega (arith, size))
            (λ q. absurd (omega (arith, q, size))))
          refl
        ∙ rw (less, append-nil))
  where
    size : length (drop pos src.raw_data) ≡ length src.raw_data - pos
    size = length-drop pos src.raw_data

    piece :
        piece_data src.raw_data pos (max_event_data_size i)
        ≡ ok (take (max_event_data_size i) (drop pos src.raw_data))
    piece = piece_data_lem src.raw_data pos (max_event_data_size i) (omega arith)

    whole : take max_payload_len (drop pos src.raw_data) ≡ drop pos src.raw_data
    whole = take_all max_payload_len (drop pos src.raw_data) (omega (arith, size))

    less : leb max_payload_len (length (drop pos src.raw_data)) ≡ false
    less = ground (arith, size)
send_rest src count (suc n) i pos s (suc f) p c b lo hi h =
    let rest =
      send_rest src count n (i + 1) (pos + max_payload_len) ((s + 1) % 2 ^ 8) f (omega arith)
        (omega arith) b (omega arith) (omega arith) (omega arith) in
    rw (piece, later_piece i p)
      (send_then (divide_from src count (suc n) (i + 1) (pos + max_payload_len))
          (piece_of src count i (take max_payload_len (drop pos src.raw_data))) s ((s + 1) % 2 ^ 8)
          (packet_header max_payload_len s ++ take max_payload_len (drop pos src.raw_data))
          (write_from f ((s + 1) % 2 ^ 8) (drop (pos + max_payload_len) src.raw_data))
          (send_later src count i s (take max_payload_len (drop pos src.raw_data)) p (omega arith) b
              (omega (arith, full)) (λ q. λ z. omega (arith, z))
            ∙ rw full)
          rest
        ∙ rw (more, drop-drop max_payload_len pos src.raw_data, append_assoc))
  where
    size : length (drop pos src.raw_data) ≡ length src.raw_data - pos
    size = length-drop pos src.raw_data

    piece :
        piece_data src.raw_data pos (max_event_data_size i)
        ≡ ok (take (max_event_data_size i) (drop pos src.raw_data))
    piece = piece_data_lem src.raw_data pos (max_event_data_size i) (omega arith)

    full : length (take max_payload_len (drop pos src.raw_data)) ≡ max_payload_len
    full = omega (arith, size, length-take max_payload_len (drop pos src.raw_data))

    more : leb max_payload_len (length (drop pos src.raw_data)) ≡ true
    more = le→leb max_payload_len (length (drop pos src.raw_data)) (omega (arith, size))

-- All pieces from the first: there are `n` more.
send_all :
    (src : SourceEvent) (n s : ℕ)
    → suc n < 2 ^ 32
    → n * max_payload_len ≤ length src.raw_data + 1
    → length src.raw_data + 1 < n * max_payload_len + max_payload_len
    → (divide_from src (suc n) (suc n) 0 0 >>= send_events s)
      ≡ ok (write_packet s (0 ∷ src.raw_data))
unfolding divide_from write_packet write_from send_events max_event_data_size piece_data
send_all src zero s b lo hi =
    rw (less, whole)
      (send_then (ok []) (piece_of src 1 0 src.raw_data) s ((s + 1) % 2 ^ 8)
          (packet_header (length src.raw_data + 1) s ++ (0 ∷ src.raw_data)) ([], (s + 1) % 2 ^ 8)
          (send_first src 1 s src.raw_data (omega arith)) refl
        ∙ rw (append-nil, add-one))
  where
    whole : piece_data src.raw_data 0 (max_payload_len - 1) ≡ ok src.raw_data
    whole =
        piece_data_lem src.raw_data 0 (max_payload_len - 1) (omega arith)
        ∙ ap ok (take_all (max_payload_len - 1) src.raw_data (omega arith))

    less : leb max_payload_len (suc (length src.raw_data)) ≡ false
    less = ground arith
send_all src (suc n) s b lo hi =
    let rest =
      send_rest src (suc (suc n)) n 1 (max_payload_len - 1) ((s + 1) % 2 ^ 8)
        (suc (length src.raw_data)) (omega arith) (omega arith) b (omega arith) (omega arith)
        (omega arith) in
    rw (more, piece)
      (send_then (divide_from src (suc (suc n)) (suc n) 1 (max_payload_len - 1))
          (piece_of src (suc (suc n)) 0 (take (max_payload_len - 1) src.raw_data)) s
          ((s + 1) % 2 ^ 8)
          (packet_header max_payload_len s ++ (0 ∷ take (max_payload_len - 1) src.raw_data))
          (write_from (suc (length src.raw_data)) ((s + 1) % 2 ^ 8)
            (drop (max_payload_len - 1) src.raw_data))
          (send_first src (suc (suc n)) s (take (max_payload_len - 1) src.raw_data)
              (omega (arith, full))
            ∙ rw full)
          rest
        ∙ rw append_assoc)
  where
    piece :
        piece_data src.raw_data 0 (max_payload_len - 1)
        ≡ ok (take (max_payload_len - 1) src.raw_data)
    piece = piece_data_lem src.raw_data 0 (max_payload_len - 1) (omega arith)

    full : length (take (max_payload_len - 1) src.raw_data) ≡ max_payload_len - 1
    full = omega (arith, length-take (max_payload_len - 1) src.raw_data)

    more : leb max_payload_len (suc (length src.raw_data)) ≡ true
    more = le→leb max_payload_len (suc (length src.raw_data)) (omega arith)

-- An event whose length is no multiple of the packet limit and with its OK byte below 2 ^ 32, cut
-- by the syncer and sent piece by piece to a slave, is on the wire byte for byte what WritePacket
-- would send for the OK byte and the whole event, and leaves the same number for the next packet.
pub send_divided :
    (src : SourceEvent) (s : ℕ)
    → length src.raw_data + 1 < 2 ^ 32
    → length src.raw_data % max_payload_len ≢ 0
    → (divide_binlog_event src >>= send_events s) ≡ ok (write_packet s (0 ∷ src.raw_data))
unfolding divide_binlog_event
send_divided src s b q = rw count (send_all src n s (omega arith) (omega arith) (omega arith))
  where
    n : ℕ
    n = (length src.raw_data + 1) / max_payload_len

    count : divided_count_of (length src.raw_data) ≡ suc n
    count = unfold divided_count_of in ground arith
