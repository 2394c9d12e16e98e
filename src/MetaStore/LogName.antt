-- ===== src/MetaStore/LogName.antt =====
-- GetNextBinlogFile of storage/meta_storage.go, with the names of binlog files.
use kingbus.Common.{
  ℕ, zero, suc, ◌+◌, ◌-◌, ◌*◌, ◌/◌, ◌%◌, ◌^◌, ◌&&◌, Option, none, some, List, [], ◌∷◌, ◌++◌, length,
  ltb, leb, ◌==◌, replicate, if◌then◌else◌, key_not_found, Result, ok, err, panic, ◌>>=◌,
}
use kingbus.Exec.{must}
use kingbus.Store.{next_binlog}
use kingbus.Bolt.{Bolt}

-- strings.Split(s, "."), from the part that is being read, in reverse order of its bytes.
split_dot : List ℕ → List (List ℕ)
split_dot [] = [] ∷ []
split_dot (c ∷ s) = elim (split_dot s) [
  | [] ↦ []
  | part ∷ parts ↦ if c == b'.' then [] ∷ part ∷ parts else (c ∷ part) ∷ parts
]

-- strconv.ParseUint(s, 10, 64)
parse_digits : ℕ → List ℕ → Option ℕ
parse_digits n [] = if ltb n (2 ^ 64) then some n else none
parse_digits n (c ∷ s) =
    let rest = parse_digits (10 * n + (c - b'0')) s in
    if leb b'0' c && leb c b'9' then rest else none

unfoldable parse_uint : List ℕ → Option ℕ
unfolding parse_digits
parse_uint [] = none
parse_uint (c ∷ s) = parse_digits 0 (c ∷ s)

-- The decimal digits of a number below ten to the fuel.
digits : ℕ → ℕ → List ℕ
digits zero n = []
digits (suc fuel) n =
    let rest = digits fuel (n / 10) in if n == 0 then [] else rest ++ (b'0' + n % 10) ∷ []

-- "%06d" of a uint64, which has 20 digits at most.
format_06 : ℕ → List ℕ
unfolding digits
format_06 n = let ds = digits 20 n in replicate (6 - length ds) b'0' ++ ds

-- The name before the one with this number: the number 0 wraps around.
previous_name : List (List ℕ) → Result (List ℕ)
unfolding parse_uint format_06
previous_name (base ∷ number ∷ []) =
    must (parse_uint number) >>= λ n. ok (base ++ b'.' ∷ format_06 ((n + 2 ^ 64 - 1) % 2 ^ 64))
previous_name _ = panic

unfoldable pub generate_previous_log_name : List ℕ → Result (List ℕ)
unfolding split_dot previous_name
generate_previous_log_name name = previous_name (split_dot name)

-- The loop of GetNextBinlogFile, with the name found so far.
name_before : ℕ → List ℕ → List (ℕ × List ℕ) → Result (List ℕ)
name_before start found [] = ok found
name_before start found ((i, v) ∷ l) =
    let rest = name_before start v l in
    if ltb i start
    then rest
    else if length found == 0
    then generate_previous_log_name v
    else ok found

module _ {D : Type 0} (b : Bolt D) where
  unfoldable pub get_next_binlog_file : ℕ → D → Result (List ℕ)
  unfolding name_before
  get_next_binlog_file start d = b.scan d next_binlog >>= λ l.
      name_before start [] l >>= λ name. if length name == 0 then err key_not_found else ok name
