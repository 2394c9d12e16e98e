-- ===== src/Handshake.antt =====
-- mysql/auth.go: how a client of the binlog server is let in. CalcPassword of go-mysql is a
-- parameter.
pub mod Response
mod Tests
use kingbus.Common.{
  ℕ, zero, suc, ◌+◌, ◌-◌, ◌*◌, ◌/◌, ◌%◌, ◌^◌, Bool, true, false, not, Option, none, some, List, [],
  ◌∷◌, ◌++◌, length, take, drop, get_elem?, ltb, ◌==◌, if◌then◌else◌, slice, slice_from, bytes_eq,
  no_such_user, access_denied, Result, ok, err, panic, ◌>>=◌,
}
use kingbus.Exec.{must}
use kingbus.Storage.Bytes.{le32, of_le32}
use kingbus.Artificial.{le16}

-- bytes.IndexByte
unfoldable pub index_byte : List ℕ → ℕ → Option ℕ
index_byte [] b = none
index_byte (x ∷ xs) b =
    let rest = index_byte xs b in
    if x == b then some 0 else elim rest [ none ↦ none | some i ↦ some (suc i) ]

-- data[pos : pos+bytes.IndexByte(data[pos:], 0)]; where there is no 0 byte the index is -1, and the
-- bounds of the slice are out of order.
unfoldable pub text_at : List ℕ → ℕ → Option ℕ → Result (List ℕ)
text_at v pos none = panic
text_at v pos (some n) = slice v pos (pos + n)

unfoldable pub string_at : List ℕ → ℕ → Result (List ℕ)
string_at v pos = slice_from v pos >>= λ rest. text_at v pos (index_byte rest 0)

-- x | CLIENT_CONNECT_WITH_DB, the bit of 8
unfoldable pub or_connect_with_db : ℕ → ℕ
or_connect_with_db x = if x / 8 % 2 == 1 then x else x + 8

-- The end of the response: the name of a database, which is not used.
unfoldable pub read_db : ℕ → List ℕ → ℕ → Result ℕ
unfolding or_connect_with_db
read_db capability v pos = slice_from v pos >>= λ rest.
    if ltb 0 (or_connect_with_db capability)
    then (if length rest == 0 then ok capability else string_at v pos >>= λ db. ok capability)
    else ok capability

-- What follows the user name of the response. `beyond` are the bytes that the array of the packet has
-- behind its end: a slice that is given its end may reach into them.
unfoldable pub check_auth : List ℕ → List ℕ → ℕ → List ℕ → ℕ → Result ℕ
unfolding read_db
check_auth beyond expected capability v pos = must (get_elem? v pos) >>= λ auth_len.
    slice (v ++ beyond) (pos + 1) (pos + 1 + auth_len) >>= λ auth.
    if not (bytes_eq auth expected)
    then err access_denied
    else read_db capability v (pos + 1 + auth_len)

-- readHandshakeResponse, behind the reading of the packet; the result is the client's capability.
unfoldable pub read_handshake_response :
    (List ℕ → List ℕ → List ℕ) → List ℕ → List ℕ → List ℕ → List ℕ → List ℕ → Result ℕ
unfolding check_auth of_le32
read_handshake_response calc_password user salt password beyond v =
    slice (v ++ beyond) 0 4 >>= λ capability. string_at v 32 >>= λ name.
    if not (bytes_eq user name)
    then err no_such_user
    else check_auth beyond (calc_password salt password) (of_le32 capability) v
        (32 + length name + 1)

-- CLIENT_LONG_PASSWORD, CLIENT_LONG_FLAG, CLIENT_CONNECT_WITH_DB, CLIENT_PROTOCOL_41,
-- CLIENT_TRANSACTIONS and CLIENT_SECURE_CONNECTION, which are different bits.
abbrev pub server_capability : ℕ
server_capability = 1 + 4 + 8 + 512 + 8192 + 32768

-- The payload of writeInitialHandshake; the id of the default collation is 33.
unfoldable pub initial_handshake : List ℕ → ℕ → List ℕ → ℕ → List ℕ
unfolding le32 le16
initial_handshake server_version connection_id salt status =
    (10 ∷ server_version)
    ++ (0
        ∷ (le32 connection_id
            ++ (take 8 salt
                ++ (0
                    ∷ (le16 (server_capability % 65536)
                        ++ (33
                            ∷ (le16 status
                                ++ (le16 (server_capability / 65536)
                                    ++ (0x15
                                        ∷ 0
                                        ∷ 0
                                        ∷ 0
                                        ∷ 0
                                        ∷ 0
                                        ∷ 0
                                        ∷ 0
                                        ∷ 0
                                        ∷ 0
                                        ∷ 0
                                        ∷ (drop 8 salt ++ 0 ∷ []))))))))))
