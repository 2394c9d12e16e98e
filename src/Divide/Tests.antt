-- ===== src/Divide/Tests.antt =====
-- The cut of a binlog event at concrete lengths.
use kingbus.Common.{
  ℕ, ◌-◌, ◌%◌, ◌≡◌, ap, List, [], ◌∷◌, arith, ok, length, length-replicate, replicate, take,
}
use kingbus.Divide.{
  BinlogEvent, SourceEvent, max_payload_len, divided_count_of, divide_binlog_event,
}
use kingbus.Divide.Rejoin.{join, Numbered, divide_rejoins, divide_drops_last_byte}

abbrev small_event : SourceEvent
small_event = record { event_type = 30; event_size = 3; raw_data = 7 ∷ 8 ∷ 9 ∷ [] }

divide_rejoins_example :
    (pieces : List BinlogEvent) × (divide_binlog_event small_event ≡ ok pieces)
    × (join pieces ≡ 7 ∷ 8 ∷ 9 ∷ [])
    × (length pieces ≡ divided_count_of 3)
    × Numbered (divided_count_of 3) 0 pieces
divide_rejoins_example = divide_rejoins small_event (omega arith) (omega arith) (omega arith)

-- An event as long as a packet may be; its bytes stay folded.
full_bytes : List ℕ
full_bytes = replicate max_payload_len 7

length-full_bytes : length full_bytes ≡ max_payload_len
unfolding full_bytes
length-full_bytes = length-replicate {A = ℕ} max_payload_len 7

abbrev full_event : SourceEvent
full_event = record { event_type = 30; event_size = max_payload_len; raw_data = full_bytes }

divide_drops_last_byte_example :
    (pieces : List BinlogEvent) × (divide_binlog_event full_event ≡ ok pieces)
    × (join pieces ≡ take (length full_bytes - 1) full_bytes)
divide_drops_last_byte_example =
    divide_drops_last_byte full_event (omega (arith, length-full_bytes))
      (omega (arith, length-full_bytes)) (ap (λ n. n % max_payload_len) length-full_bytes)
