-- ===== src/Packet/RoundTrip.antt =====
-- Packets that are written are read back.
use kingbus.Common.{
  ℕ, zero, suc, ◌+◌, ◌%◌, ◌^◌, ◌≤◌, ◌<◌, ◌≡◌, ◌≢◌, refl, sym, ap, ◌∙◌, false, List, ◌++◌,
  append_assoc, arith, leb, ==_ne, ==_refl, le→ltb, lt→ltb, leb→le, Bool-cases, inl, inr,
  invalid_length, ok, err, length, take, drop, length-append, length-take, length-drop,
  take-append-drop, take-length-append, drop-length-append,
}
use kingbus.Divide.{max_payload_len}
use kingbus.Packet.{
  BaseConn, packet_header, header_length, header_sequence, read_full, read_packet_to, read_packet,
  write_from, write_packet,
}

pub header_round_trip : (n s : ℕ) → n < 2 ^ 24 → header_length (packet_header n s) ≡ n
unfolding packet_header header_length
header_round_trip n s h = omega arith

pub length-packet_header : (n s : ℕ) → length (packet_header n s) ≡ 4
unfolding packet_header
length-packet_header n s = refl

pub header_number : (n s : ℕ) → header_sequence (packet_header n s) ≡ s
unfolding packet_header header_sequence
header_number n s = refl

pub read_full_lem :
    (n s : ℕ) (xs ys : List ℕ)
    → n ≡ length xs
    → read_full n (record { input = xs ++ ys; sequence = s })
      ≡ (ok xs, record { input = ys; sequence = s })
unfolding read_full
read_full_lem n s xs ys h = rw (
  h,
  le→ltb (length (xs ++ ys)) (length xs) (omega (arith, length-append xs ys)),
  take-length-append,
  drop-length-append,
)

-- One packet at the front of the input: what follows turns on whether it is full.
last_packet :
    (fuel s : ℕ) (p rest : List ℕ)
    → 0 < length p
    → length p < max_payload_len
    → read_packet_to
        (suc fuel)
        (record { input = packet_header (length p) s ++ (p ++ rest); sequence = s })
      ≡ (ok p, record { input = rest; sequence = (s + 1) % 2 ^ 8 })
unfolding read_packet_to
last_packet fuel s p rest some small = rw (
  read_full_lem 4 s (packet_header (length p) s) (p ++ rest)
      (sym (length-packet_header (length p) s)),
  header_round_trip (length p) s (omega arith),
  ==_ne (length p) 0 (omega arith),
  header_number,
  ==_refl,
  read_full_lem (length p) ((s + 1) % 2 ^ 8) p rest refl,
  lt→ltb (length p) max_payload_len small,
)

full_packet :
    (fuel s : ℕ) (p more rest : List ℕ) (final : BaseConn)
    → length p ≡ max_payload_len
    → read_packet_to fuel (record { input = rest; sequence = (s + 1) % 2 ^ 8 }) ≡ (ok more, final)
    → read_packet_to
        (suc fuel)
        (record { input = packet_header max_payload_len s ++ (p ++ rest); sequence = s })
      ≡ (ok (p ++ more), final)
unfolding read_packet_to
full_packet fuel s p more rest final full later = rw (
  read_full_lem 4 s (packet_header max_payload_len s) (p ++ rest)
      (sym (length-packet_header max_payload_len s)),
  header_round_trip max_payload_len s (omega arith),
  header_number,
  ==_refl,
  read_full_lem max_payload_len ((s + 1) % 2 ^ 8) p rest (sym full),
  later,
)

pub empty_packet :
    (fuel s : ℕ) (rest : List ℕ)
    → (read_packet_to (suc fuel) (record { input = packet_header 0 s ++ rest; sequence = s })).0
      ≡ err invalid_length
unfolding read_packet_to
empty_packet fuel s rest = rw (
  read_full_lem 4 s (packet_header 0 s) rest (sym (length-packet_header 0 s)),
  header_round_trip 0 s (omega arith),
)

-- The bytes of a full packet and those of the packets behind it.
pub front :
    (s : ℕ) (p more rest : List ℕ)
    → (packet_header max_payload_len s ++ (p ++ more)) ++ rest
      ≡ packet_header max_payload_len s ++ (p ++ (more ++ rest))
front s p more rest =
    append_assoc (packet_header max_payload_len s) (p ++ more) rest
    ∙ ap (λ t. packet_header max_payload_len s ++ t) (append_assoc p more rest)

pub chunk :
    (p : List ℕ) → max_payload_len ≤ length p → length (take max_payload_len p) ≡ max_payload_len
chunk p h = omega (arith, length-take max_payload_len p)

pub length-write_from :
    (f s : ℕ) (p : List ℕ) → length p < f → length p ≤ length (write_from f s p).0
unfolding write_from
length-write_from zero s p h = absurd (omega arith)
length-write_from (suc f) s p h = elim (Bool-cases (leb max_payload_len (length p))) [
  | inl more ↦
      let tail = drop max_payload_len p in
      let size = length-drop max_payload_len p in
      let bytes = (write_from f ((s + 1) % 2 ^ 8) tail).0 in
      rw more (
        omega (
          arith,
          length-write_from f ((s + 1) % 2 ^ 8) tail
              (omega (arith, size, leb→le max_payload_len (length p) more)),
          size,
          length-append (packet_header max_payload_len s) (take max_payload_len p ++ bytes),
          length-append (take max_payload_len p) bytes,
          chunk p (leb→le max_payload_len (length p) more),
        ))
  | inr less ↦ rw less (omega (arith, length-append (packet_header (length p) s) p))
]

read_write_from :
    (f g s : ℕ) (p rest : List ℕ)
    → length p ≤ f
    → length p ≤ g
    → length p % max_payload_len ≢ 0
    → read_packet_to g (record { input = (write_from f s p).0 ++ rest; sequence = s })
      ≡ (ok p, record { input = rest; sequence = (write_from f s p).1 })
unfolding write_from
read_write_from zero g s p rest a b q = absurd (q (omega arith))
read_write_from (suc f) zero s p rest a b q = absurd (q (omega arith))
read_write_from (suc f) (suc g) s p rest a b q =
    elim (Bool-cases (leb max_payload_len (length p))) [
      | inl more ↦
          let tail = drop max_payload_len p in
          let size = length-drop max_payload_len p in
          let big = leb→le max_payload_len (length p) more in
          let later =
            read_write_from f g ((s + 1) % 2 ^ 8) tail rest (omega (arith, size))
              (omega (arith, size)) (λ z. q (omega (arith, size, z))) in
          rw (more, front)
            (full_packet g s (take max_payload_len p) tail
                ((write_from f ((s + 1) % 2 ^ 8) tail).0 ++ rest)
                (record { input = rest; sequence = (write_from f ((s + 1) % 2 ^ 8) tail).1 })
                (chunk p big) later
              ∙ ap
                  (λ (t : List ℕ). (
                    ok t,
                    record { input = rest; sequence = (write_from f ((s + 1) % 2 ^ 8) tail).1 },
                  ))
                  (take-append-drop max_payload_len p))
      | inr less ↦ rw (less, append_assoc) (last_packet g s p rest (omega arith) (not_full less))
    ]
  where
    not_full : leb max_payload_len (length p) ≡ false → length p < max_payload_len
    not_full h = ground arith

-- A payload whose length is no multiple of the packet limit is read back from the bytes that
-- WritePacket sends for it, in however many packets, and nothing behind them is touched: the
-- reader stands where the writer does, at the next number.
pub read_packet-write_packet :
    (s : ℕ) (p rest : List ℕ)
    → length p % max_payload_len ≢ 0
    → read_packet (record { input = (write_packet s p).0 ++ rest; sequence = s })
      ≡ (ok p, record { input = rest; sequence = (write_packet s p).1 })
unfolding read_packet write_packet
read_packet-write_packet s p rest q =
    read_write_from (suc (length p)) (suc (length ((write_packet s p).0 ++ rest))) s p rest
      (omega arith)
      (omega (
        arith,
        length-append (write_packet s p).0 rest,
        length-write_from (suc (length p)) s p (omega arith),
      ))
      q
