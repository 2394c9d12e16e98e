-- ===== src/Slaves/Packet.antt =====
-- The packet of COM_REGISTER_SLAVE and its reading.
use kingbus.Common.{
  ℕ, ◌+◌, ◌*◌, ◌/◌, ◌%◌, ◌^◌, ◌<◌, ◌≡◌, refl, sym, ap, ◌∙◌, some, List, [], ◌∷◌, ◌++◌, append_assoc,
  append-nil, arith, length, length-append, get_elem?, get_elem?-middle, slice, slice-at, ok,
}
use kingbus.Storage.Bytes.{le32, of_le32-le32, length-le32}
use kingbus.Artificial.{le16}
use kingbus.Slaves.{Slave, text_field, uint32_at, uint16_at, parse_register_slave}

-- The packet as the protocol has it: each text behind its length, numbers in little endian.
pub register_packet : Slave → List ℕ
unfolding le16
register_packet s =
    le32 s.server_id
    ++ (length s.host_name
        ∷ (s.host_name
            ++ (length s.user
                ∷ (s.user
                    ++ (length s.password
                        ∷ (s.password ++ (le16 s.port ++ (le32 s.rank ++ le32 s.master_id))))))))

length-le16 : (n : ℕ) → length (le16 n) ≡ 2
unfolding le16
length-le16 n = refl

text_field-at :
    (v pre s rest : List ℕ) (n : ℕ)
    → v ≡ pre ++ (length s ∷ (s ++ rest))
    → n ≡ length pre
    → text_field v n ≡ ok (s, n + 1 + length s)
unfolding text_field
text_field-at v pre s rest n e at =
    let size : get_elem? v n ≡ some (length s) =
      ap (λ w. get_elem? w n) e
      ∙ (ap (get_elem? (pre ++ (length s ∷ (s ++ rest)))) at
          ∙ get_elem?-middle pre (length s) (s ++ rest)) in
    let start : n + 1 ≡ length (pre ++ length s ∷ []) =
      omega (arith, at, length-append pre (length s ∷ [])) in
    let text : slice v (n + 1) (n + 1 + length s) ≡ ok s =
      slice-at v (pre ++ length s ∷ []) s rest (n + 1) (n + 1 + length s)
        (e ∙ sym (append_assoc pre (length s ∷ []) (s ++ rest))) start (omega (arith, start)) in
    rw (size, text) refl

uint32_at-at :
    (v pre rest : List ℕ) (x n : ℕ)
    → v ≡ pre ++ (le32 x ++ rest)
    → n ≡ length pre
    → x < 2 ^ 32
    → uint32_at v n ≡ ok x
unfolding uint32_at
uint32_at-at v pre rest x n e at bound =
    let word : slice v n (n + 4) ≡ ok (le32 x) =
      slice-at v pre (le32 x) rest n (n + 4) e at (omega (arith, at, length-le32 x)) in
    rw (word, of_le32-le32 x bound) refl

uint16_at-at :
    (v pre rest : List ℕ) (x n : ℕ)
    → v ≡ pre ++ (le16 x ++ rest)
    → n ≡ length pre
    → x < 2 ^ 16
    → uint16_at v n ≡ ok x
unfolding uint16_at le16
uint16_at-at v pre rest x n e at bound =
    let low : get_elem? v n ≡ some (x % 256) =
      ap (λ w. get_elem? w n) e
      ∙ (ap (get_elem? (pre ++ (le16 x ++ rest))) at
          ∙ get_elem?-middle pre (x % 256) (x / 256 % 256 ∷ rest)) in
    let behind = pre ++ x % 256 ∷ [] in
    let high : get_elem? v (n + 1) ≡ some (x / 256 % 256) =
      ap (λ w. get_elem? w (n + 1))
        (e ∙ sym (append_assoc pre (x % 256 ∷ []) (x / 256 % 256 ∷ rest)))
      ∙ (ap (get_elem? (behind ++ (x / 256 % 256 ∷ rest))) {x = n + 1} {y = length behind}
            (omega (arith, at, length-append pre (x % 256 ∷ [])))
          ∙ get_elem?-middle behind (x / 256 % 256) rest) in
    let value : x % 256 + x / 256 % 256 * 256 ≡ x = omega arith in rw (low, high, value) refl

-- The numbers fit their fields.
pub record IsSlave (s : Slave) : Type 0 where
  pub server_bound : s.server_id < 2 ^ 32
  pub port_bound : s.port < 2 ^ 16
  pub rank_bound : s.rank < 2 ^ 32
  pub master_bound : s.master_id < 2 ^ 32

-- handleRegisterSlave reads from the packet of a slave, whose numbers fit their fields, that slave.
pub parse-register_packet :
    (s : Slave) → IsSlave s → parse_register_slave s.conn s.uuid (register_packet s) ≡ ok s
unfolding parse_register_slave register_packet
parse-register_packet s b =
    let v = register_packet s in
    let r6 = le32 s.master_id in
    let r5 = le32 s.rank ++ r6 in
    let r4 = le16 s.port ++ r5 in
    let r3 = length s.password ∷ (s.password ++ r4) in
    let r2 = length s.user ∷ (s.user ++ r3) in
    let p1 = le32 s.server_id in
    let p2 = p1 ++ (length s.host_name ∷ s.host_name) in
    let p3 = p2 ++ (length s.user ∷ s.user) in
    let p4 = p3 ++ (length s.password ∷ s.password) in
    let p5 = p4 ++ le16 s.port in
    let p6 = p5 ++ le32 s.rank in
    let e2 : v ≡ p2 ++ r2 = sym (append_assoc p1 (length s.host_name ∷ s.host_name) r2) in
    let e3 : v ≡ p3 ++ r3 = e2 ∙ sym (append_assoc p2 (length s.user ∷ s.user) r3) in
    let e4 : v ≡ p4 ++ r4 = e3 ∙ sym (append_assoc p3 (length s.password ∷ s.password) r4) in
    let e5 : v ≡ p5 ++ r5 = e4 ∙ sym (append_assoc p4 (le16 s.port) r5) in
    let e6 : v ≡ p6 ++ (r6 ++ []) =
      e5 ∙ (sym (append_assoc p5 (le32 s.rank) r6) ∙ ap (λ w. p6 ++ w) (sym (append-nil r6))) in
    let n2 = 4 + 1 + length s.host_name in
    let n3 = n2 + 1 + length s.user in
    let n4 = n3 + 1 + length s.password in
    let l1 = length-le32 s.server_id in
    let l2 : n2 ≡ length p2 =
      omega (arith, l1, length-append p1 (length s.host_name ∷ s.host_name)) in
    let l3 : n3 ≡ length p3 = omega (arith, l2, length-append p2 (length s.user ∷ s.user)) in
    let l4 : n4 ≡ length p4 =
      omega (arith, l3, length-append p3 (length s.password ∷ s.password)) in
    let l5 : n4 + 2 ≡ length p5 =
      omega (arith, l4, length-append p4 (le16 s.port), length-le16 s.port) in
    let l6 : n4 + 6 ≡ length p6 =
      omega (arith, l5, length-append p5 (le32 s.rank), length-le32 s.rank) in
    rw
      (
        uint32_at-at v [] (length s.host_name ∷ (s.host_name ++ r2)) s.server_id 0 refl refl
            b.server_bound,
        text_field-at v p1 s.host_name r2 4 refl (omega (arith, l1)),
        text_field-at v p2 s.user r3 n2 e2 l2,
        text_field-at v p3 s.password r4 n3 e3 l3,
        uint16_at-at v p4 r5 s.port n4 e4 l4 b.port_bound,
        uint32_at-at v p5 r6 s.rank (n4 + 2) e5 l5 b.rank_bound,
        uint32_at-at v p6 [] s.master_id (n4 + 6) e6 l6 b.master_bound,
      )
      refl
