-- ===== src/Slaves.antt =====
-- mysql/command.go and server/binlog_server.go: the slaves that a binlog server knows, by their
-- uuid. A connection is its id; a closed one is noted.
pub mod Packet
pub mod Exit
mod Tests
use kingbus.Common.{
  ℕ, ◌+◌, ◌*◌, Bool, true, false, not, ◌&&◌, Option, none, some, List, [], ◌∷◌, ◌++◌, length,
  get_elem?, ◌==◌, if◌then◌else◌, slice, slice_from, bytes_eq, uuid_is_null, Error, Result, ok, err,
  panic, ◌>>=◌,
}
use kingbus.Exec
use kingbus.Exec.{Exec, must}
use kingbus.Storage.Bytes.{of_le32}
use kingbus.Dump.{find_slave, register_slave, unregister_slave}

-- mysql.Slave; server_id and port keep the bits that the code reads as signed.
pub record Slave : Type 0 where
  pub server_id : ℕ
  pub host_name : List ℕ
  pub user : List ℕ
  pub password : List ℕ
  pub port : ℕ
  pub rank : ℕ
  pub master_id : ℕ
  pub uuid : List ℕ
  pub conn : ℕ

-- A text behind its length, a byte, and the position behind it.
unfoldable pub text_field : List ℕ → ℕ → Result (List ℕ × ℕ)
text_field v pos = must (get_elem? v pos) >>= λ n.
    slice v (pos + 1) (pos + 1 + n) >>= λ text. ok (text, pos + 1 + n)

-- LittleEndian.Uint32 and Uint16 at a position.
unfoldable pub uint32_at : List ℕ → ℕ → Result ℕ
unfolding of_le32
uint32_at v pos = slice v pos (pos + 4) >>= λ w. ok (of_le32 w)

unfoldable pub uint16_at : List ℕ → ℕ → Result ℕ
uint16_at v pos =
    must (get_elem? v pos) >>= λ a. must (get_elem? v (pos + 1)) >>= λ b. ok (a + b * 256)

-- The packet of COM_REGISTER_SLAVE, as handleRegisterSlave reads it; it has no uuid.
unfoldable pub parse_register_slave : ℕ → List ℕ → List ℕ → Result Slave
unfolding text_field uint32_at uint16_at
parse_register_slave conn uuid v = uint32_at v 0 >>= λ server_id. text_field v 4 >>= λ host.
    text_field v host.1 >>= λ user. text_field v user.1 >>= λ password.
    uint16_at v password.1 >>= λ port. uint32_at v (password.1 + 2) >>= λ rank.
    uint32_at v (password.1 + 6) >>= λ master_id. ok (record {
      server_id = server_id;
      host_name = host.0;
      user = user.0;
      password = password.0;
      port = port;
      rank = rank;
      master_id = master_id;
      uuid = uuid;
      conn = conn;
    })

-- The slaves of a server, and the connections that were closed.
pub record Registry : Type 0 where
  pub slaves : List (List ℕ × Slave)
  pub closed : List ℕ

-- UnregisterSlave, which closes the connection of the slave.
unfoldable pub unregister : List ℕ → Registry → Registry
unfolding unregister_slave
unregister uuid r = elim (find_slave uuid r.slaves) [
  | none ↦ r
  | some s ↦ record {
    slaves = (unregister_slave uuid r.slaves).1;
    closed = r.closed ++ s.conn ∷ [];
  }
]

-- killZombieDumpThreads of a connection, with its variable slave_uuid.
unfoldable pub kill_zombie_dump_threads : ℕ → Option (List ℕ) → Registry → Registry
kill_zombie_dump_threads conn none r = r
kill_zombie_dump_threads conn (some uuid) r =
    if length uuid == 0 then r else elim (find_slave uuid r.slaves) [
      | none ↦ r
      | some s ↦ if s.conn == conn then r else unregister uuid r
    ]

abbrev pub uuid_or_empty : Option (List ℕ) → List ℕ
uuid_or_empty none = []
uuid_or_empty (some uuid) = uuid

abbrev pub registered :
    Slave → Result (List (List ℕ × Slave)) → Registry → Result (Unit {0}) × Registry
registered s (ok ss) r = (ok tt, record r { slaves = ss })
registered s (err e) r = (err e, r)
registered s panic r = (panic, r)

-- handleRegisterSlave, once the packet is read; then as a whole.
unfoldable pub register_parsed : ℕ → Option (List ℕ) → Result Slave → Exec Registry (Unit {0})
register_parsed conn slave_uuid (ok s) r =
    let killed = kill_zombie_dump_threads conn slave_uuid r in
    registered s (register_slave s.uuid s killed.slaves) killed
register_parsed conn slave_uuid (err e) r = (err e, r)
register_parsed conn slave_uuid panic r = (panic, r)

unfoldable pub handle_register_slave : ℕ → Option (List ℕ) → List ℕ → Exec Registry (Unit {0})
unfolding register_parsed
handle_register_slave conn slave_uuid v =
    register_parsed conn slave_uuid (parse_register_slave conn (uuid_or_empty slave_uuid) v)

-- handleKill: the first slave with the connection of that id.
find_conn : ℕ → List (List ℕ × Slave) → Option (List ℕ)
find_conn conn [] = none
find_conn conn ((u, s) ∷ ss) =
    let rest = find_conn conn ss in if s.conn == conn then some s.uuid else rest

unfoldable pub handle_kill : ℕ → Registry → Registry
unfolding find_conn unregister
handle_kill conn r = elim (find_conn conn r.slaves) [ none ↦ r | some uuid ↦ unregister uuid r ]

-- What the deferred call of handleBinlogDumpGtid does when the dump ends, in whatever way; without
-- the variable slave_uuid the dump does not begin.
unfoldable pub end_dump : Option (List ℕ) → Registry → Result (Unit {0}) × Registry
unfolding unregister
end_dump none r = (panic, r)
end_dump (some uuid) r = (ok tt, unregister uuid r)
