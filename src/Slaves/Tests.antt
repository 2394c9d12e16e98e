-- ===== src/Slaves/Tests.antt =====
-- A slave of the uuid 7 on the connection 1, and again on the connection 2.
use kingbus.Common.{ℕ, ◌≡◌, refl, some, none, [], ◌∷◌, ◌++◌, arith, ok}
use kingbus.Dump.{find_slave}
use kingbus.Slaves.{Slave, Registry, parse_register_slave, handle_register_slave, end_dump}
use kingbus.Slaves.Packet.{IsSlave, register_packet, parse-register_packet}
use kingbus.Slaves.Exit.{end_dump-closes_new}

abbrev slave_on : ℕ → Slave
slave_on c = record {
  server_id = 5;
  host_name = 104 ∷ 49 ∷ [];
  user = 117 ∷ [];
  password = [];
  port = 3306;
  rank = 0;
  master_id = 1;
  uuid = 7 ∷ [];
  conn = c;
}

slave_on-IsSlave : (c : ℕ) → IsSlave (slave_on c)
slave_on-IsSlave c = record {
  server_bound = omega arith;
  port_bound = omega arith;
  rank_bound = omega arith;
  master_bound = omega arith;
}

parse-register_packet_example :
    parse_register_slave 1 (7 ∷ []) (register_packet (slave_on 1)) ≡ ok (slave_on 1)
parse-register_packet_example = parse-register_packet (slave_on 1) (slave_on-IsSlave 1)

abbrev with_old : Registry
with_old = record { slaves = (7 ∷ [], slave_on 1) ∷ []; closed = [] }

end_dump-closes_new_example :
    let q = (handle_register_slave 2 (some (7 ∷ [])) (register_packet (slave_on 2)) with_old).1 in
    (find_slave (7 ∷ []) q.slaves ≡ some (slave_on 2))
    × (((end_dump (some (7 ∷ [])) q).1.closed ≡ q.closed ++ 2 ∷ [])
        × (find_slave (7 ∷ []) (end_dump (some (7 ∷ [])) q).1.slaves ≡ none))
unfolding find_slave
end_dump-closes_new_example =
    end_dump-closes_new with_old (slave_on 1) (slave_on 2) refl (omega arith) refl
      (slave_on-IsSlave 2)
