-- ===== src/Divide/Rejoin.antt =====
-- The pieces of a divided event, put together again.
use mathlib.Core.Path.{subst}
use kingbus.Common.{
  ℕ, zero, suc, ◌+◌, ◌-◌, ◌*◌, ◌%◌, ◌^◌, ◌≤◌, ◌<◌, ◌≡◌, ◌≢◌, refl, ap, ◌∙◌, ◌⊎◌, inr, List, [], ◌∷◌,
  ◌++◌, arith, ok, length, take, drop, take-add, drop-drop, take_all, length-drop, length-take,
}
use kingbus.Divide.{
  mysql, max_payload_len, BinlogEvent, SourceEvent, piece_data, max_event_data_size, divide_from,
  divided_count_of, divide_binlog_event,
}

-- The data of the pieces, one after another.
unfoldable pub join : List BinlogEvent → List ℕ
join [] = []
join (e ∷ es) = e.payload ++ join es

-- A piece that starts inside the event is its next `size` bytes, or all that is left.
pub piece_data_lem :
    (raw : List ℕ) (pos size : ℕ)
    → pos ≤ length raw
    → piece_data raw pos size ≡ ok (take size (drop pos raw))
unfolding piece_data
piece_data_lem raw pos size h = ground (arith, take_all size (drop pos raw), length-drop pos raw)

pub later_piece : (i : ℕ) → 0 < i → max_event_data_size i ≡ max_payload_len
unfolding max_event_data_size
later_piece i h = ground arith

-- The numbers of the pieces count up from `i`, and each fits a packet, with its OK byte if first.
pub data Numbered (count : ℕ) : ℕ → List BinlogEvent → Type 0 where
  none_left : (i : ℕ) → Numbered count i []
  piece :
      (i : ℕ) (e : BinlogEvent) (es : List BinlogEvent)
      → e.divided_count ≡ count
      → e.divided_seq_num ≡ i
      → length e.payload ≤ max_event_data_size i
      → Numbered count (i + 1) es
      → Numbered count i (e ∷ es)

-- With `n + 1` full pieces to cut, the next bytes of the event go into numbered pieces.
abbrev Divided : SourceEvent → ℕ → ℕ → ℕ → ℕ → ℕ → Type 0
Divided src count n i pos size =
    (pieces : List BinlogEvent) × (divide_from src count n i pos ≡ ok pieces)
    × (join pieces ≡ take size (drop pos src.raw_data))
    × (length pieces ≡ n)
    × Numbered count i pieces

abbrev cut : SourceEvent → ℕ → ℕ → ℕ → BinlogEvent
cut src count i pos = record {
  event_type = src.event_type;
  flavor = mysql;
  divided_count = count;
  divided_seq_num = i;
  payload = take (max_event_data_size i) (drop pos src.raw_data);
}

length-take_le : (n : ℕ) (xs : List ℕ) → length (take n xs) ≤ n
length-take_le n xs = omega (arith, length-take n xs)

-- One round of the loop in front of the rounds that are left.
one_piece_more :
    (src : SourceEvent) (count n i pos size : ℕ)
    → pos ≤ length src.raw_data
    → Divided src count n (i + 1) (pos + max_event_data_size i) size
    → Divided src count (suc n) i pos (max_event_data_size i + size)
unfolding divide_from join
one_piece_more src count n i pos size h (pieces, runs, joins, counted, numbered) = (
  cut src count i pos ∷ pieces,
  rw (piece_data_lem src.raw_data pos (max_event_data_size i) h) (rw runs),
  rw (take-add, drop-drop)
      (ap (λ t. take (max_event_data_size i) (drop pos src.raw_data) ++ t) joins),
  ap suc counted,
  piece i (cut src count i pos) pieces refl refl (length-take_le _ _) numbered,
)

later_pieces :
    (src : SourceEvent) (count n i pos : ℕ)
    → 0 < i
    → (n ≡ 0) ⊎ (pos + n * max_payload_len ≤ length src.raw_data + max_payload_len)
    → Divided src count n i pos (n * max_payload_len)
unfolding divide_from join
later_pieces src count zero i pos hi h = ([], refl, refl, refl, none_left i)
later_pieces src count (suc n) i pos hi h =
    subst (λ k. Divided src count (suc n) i pos k) size
      (one_piece_more src count n i pos (n * max_payload_len) (omega arith)
        (rw full (later_pieces src count n (i + 1) (pos + max_payload_len) (omega arith) room)))
  where
    full : max_event_data_size i ≡ max_payload_len
    full = later_piece i hi

    size : max_event_data_size i + n * max_payload_len ≡ suc n * max_payload_len
    size = omega (arith, full)

    room :
        (n ≡ 0)
        ⊎ (pos + max_payload_len + n * max_payload_len ≤ length src.raw_data + max_payload_len)
    room = inr (omega arith)

first_piece : max_event_data_size 0 ≡ max_payload_len - 1
unfolding max_event_data_size
first_piece = refl

-- All `n + 1` rounds, from the first.
divided :
    (src : SourceEvent) (count n : ℕ)
    → n * max_payload_len ≤ length src.raw_data + 1
    → Divided src count (suc n) 0 0 (max_payload_len - 1 + n * max_payload_len)
divided src count n h =
    subst (λ k. Divided src count (suc n) 0 0 (k + n * max_payload_len)) first_piece
      (one_piece_more src count n 0 0 (n * max_payload_len) (omega arith) (
        rw first_piece
          (later_pieces src count n 1 (max_payload_len - 1) (omega arith) (inr (omega arith)))))

count_exact :
    (len : ℕ)
    → 0 < len
    → len < 2 ^ 32
    → (n : ℕ) × (divided_count_of len ≡ suc n)
      × (n * max_payload_len ≤ len + 1)
      × ((len % max_payload_len ≢ 0) → len ≤ max_payload_len - 1 + n * max_payload_len)
      × (len % max_payload_len ≡ 0 → max_payload_len - 1 + n * max_payload_len ≡ len - 1)
unfolding divided_count_of
count_exact len p h =
    (divided_count_of len - 1, ground arith, ground arith, λ q. ground arith, λ q. ground arith)

-- An event whose length is below 2 ^ 32 and no multiple of the packet limit is cut without a
-- fault into exactly the announced number of pieces, numbered from 0, each fitting a packet (the
-- first beside its OK byte), and the pieces in order are the bytes of the event.
pub divide_rejoins :
    (src : SourceEvent)
    → 0 < length src.raw_data
    → length src.raw_data < 2 ^ 32
    → length src.raw_data % max_payload_len ≢ 0
    → (pieces : List BinlogEvent) × (divide_binlog_event src ≡ ok pieces)
      × (join pieces ≡ src.raw_data)
      × (length pieces ≡ divided_count_of (length src.raw_data))
      × Numbered (divided_count_of (length src.raw_data)) 0 pieces
unfolding divide_binlog_event
divide_rejoins src p h q =
    let (n, count, fits, whole, _) = count_exact (length src.raw_data) p h in
    let (pieces, runs, joins, counted, numbered) = divided src (suc n) n fits in
    rw count (
      pieces,
      runs,
      joins ∙ take_all (max_payload_len - 1 + n * max_payload_len) src.raw_data (whole q),
      counted,
      numbered,
    )

-- An event whose length is a positive multiple of the packet limit below 2 ^ 32 is cut without a
-- fault too, but its last byte is in no piece.
pub divide_drops_last_byte :
    (src : SourceEvent)
    → 0 < length src.raw_data
    → length src.raw_data < 2 ^ 32
    → length src.raw_data % max_payload_len ≡ 0
    → (pieces : List BinlogEvent) × (divide_binlog_event src ≡ ok pieces)
      × (join pieces ≡ take (length src.raw_data - 1) src.raw_data)
unfolding divide_binlog_event
divide_drops_last_byte src p h q =
    let (n, count, fits, _, short) = count_exact (length src.raw_data) p h in
    let (pieces, runs, joins, _, _) = divided src (suc n) n fits in
    rw count (pieces, runs, joins ∙ ap (λ k. take k src.raw_data) (short q))
