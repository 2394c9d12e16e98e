-- ===== src/Packet/FullPackets.antt =====
-- A payload that fills its last packet.
use kingbus.Common.{
  ℕ, zero, suc, ◌+◌, ◌*◌, ◌/◌, ◌%◌, ◌^◌, ◌≤◌, ◌<◌, ◌≡◌, sym, ap, List, [], ◌∷◌, ◌++◌, arith, le→leb,
  ==_refl, Error, invalid_length, Result, ok, err, panic, length, length-append, length-drop, take,
  drop,
}
use kingbus.Exec.{Exec, continue}
use kingbus.Divide.{max_payload_len}
use kingbus.Packet.{packet_header, read_packet_to, read_packet, write_from, write_packet}
use kingbus.Packet.RoundTrip.{
  read_full_lem, header_round_trip, header_number, length-packet_header, empty_packet, front, chunk,
  length-write_from,
}

-- The same error as another result.
same_error : {A B : Type 0} → Result A → Result B
same_error (ok a) = panic
same_error (err e) = err e
same_error panic = panic

fails_on :
    {S A B : Type 0} (r : Result A × S) (f : A → Exec S B) (x : Error)
    → r.0 ≡ err x
    → (continue r f).0 ≡ err x
unfolding same_error
fails_on (ok a, s) f x h = cc
fails_on (err e, s) f x h = ap same_error h
fails_on (panic, s) f x h = cc

front_fails :
    (fuel s : ℕ) (p rest : List ℕ) (x : Error)
    → length p ≡ max_payload_len
    → (read_packet_to fuel (record { input = rest; sequence = (s + 1) % 2 ^ 8 })).0 ≡ err x
    → (read_packet_to
        (suc fuel)
        (record { input = packet_header max_payload_len s ++ (p ++ rest); sequence = s })).0
      ≡ err x
unfolding read_packet_to
front_fails fuel s p rest x full later =
    rw
      (
        read_full_lem 4 s (packet_header max_payload_len s) (p ++ rest)
            (sym (length-packet_header max_payload_len s)),
        header_round_trip max_payload_len s (omega arith),
        header_number,
        ==_refl,
        read_full_lem max_payload_len ((s + 1) % 2 ^ 8) p rest (sym full),
      )
      (fails_on (read_packet_to fuel (record { input = rest; sequence = (s + 1) % 2 ^ 8 })) _ x
        later)

fails_from :
    (n f g s : ℕ) (p rest : List ℕ)
    → length p ≡ n * max_payload_len
    → n < f
    → n < g
    → (read_packet_to g (record { input = (write_from f s p).0 ++ rest; sequence = s })).0
      ≡ err invalid_length
unfolding write_from
fails_from n zero g s p rest l a b = absurd (omega arith)
fails_from n (suc f) zero s p rest l a b = absurd (omega arith)
fails_from zero (suc f) (suc g) s [] rest l a b = empty_packet g s rest
fails_from zero (suc f) (suc g) s (x ∷ p) rest l a b = absurd (omega arith)
fails_from (suc n) (suc f) (suc g) s p rest l a b =
    let big : max_payload_len ≤ length p = omega arith in
    rw (le→leb max_payload_len (length p) big, front)
      (front_fails g s (take max_payload_len p)
        ((write_from f ((s + 1) % 2 ^ 8) (drop max_payload_len p)).0 ++ rest) invalid_length
        (chunk p big)
        (fails_from n f g ((s + 1) % 2 ^ 8) (drop max_payload_len p) rest
          (omega (arith, length-drop max_payload_len p)) (omega arith) (omega arith)))

-- A payload whose length is a multiple of the packet limit, an empty one among them, is sent with
-- an empty packet at its end, and the reader refuses it for that packet.
pub read_packet-write_packet_full :
    (s : ℕ) (p rest : List ℕ)
    → length p % max_payload_len ≡ 0
    → (read_packet (record { input = (write_packet s p).0 ++ rest; sequence = s })).0
      ≡ err invalid_length
unfolding read_packet write_packet
read_packet-write_packet_full s p rest q =
    fails_from (length p / max_payload_len) (suc (length p))
      (suc (length ((write_packet s p).0 ++ rest))) s p rest (omega (arith, q)) (omega (arith, q))
      (omega (
        arith,
        q,
        length-append (write_packet s p).0 rest,
        length-write_from (suc (length p)) s p (omega arith),
      ))
