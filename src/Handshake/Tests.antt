-- ===== src/Handshake/Tests.antt =====
-- Responses of a client, with a password that is hashed to itself.
use kingbus.Common.{
  ℕ, ◌≡◌, refl, List, [], ◌∷◌, arith, replicate, if◌then◌else◌, bytes_eq, no_such_user,
  access_denied, ok, err, panic,
}
use kingbus.Handshake.{read_handshake_response}
use kingbus.Handshake.Response.{
  none_given, response, read_handshake_response_lem, read_handshake_response-panics,
}

abbrev repl : List ℕ
repl = 114 ∷ 101 ∷ 112 ∷ 108 ∷ []

abbrev plain_password : List ℕ → List ℕ → List ℕ
plain_password salt password = password

read_handshake_response_lem_example :
    read_handshake_response plain_password repl []
      (1 ∷ 2 ∷ [])
      []
      (response 512 (replicate 28 0) repl (1 ∷ 3 ∷ []) [])
    ≡ (if bytes_eq repl repl
        then (if bytes_eq (1 ∷ 3 ∷ []) (1 ∷ 2 ∷ []) then ok 512 else err access_denied)
        else err no_such_user)
read_handshake_response_lem_example =
    read_handshake_response_lem plain_password repl [] (1 ∷ 2 ∷ []) [] 512 (replicate 28 0) repl
      (1 ∷ 3 ∷ []) [] (omega arith) refl
      (omega arith, (omega arith, (omega arith, (omega arith, tt)))) none_given

-- A packet of five bytes.
read_handshake_response-panics_example :
    read_handshake_response plain_password repl [] [] (replicate 59 0) (1 ∷ 0 ∷ 0 ∷ 0 ∷ 7 ∷ [])
    ≡ panic
read_handshake_response-panics_example =
    read_handshake_response-panics plain_password repl [] [] (replicate 59 0)
      (1 ∷ 0 ∷ 0 ∷ 0 ∷ 7 ∷ []) tt
