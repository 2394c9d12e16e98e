-- ===== src/Common/Outcome.antt =====
-- Go's `error` values and the ways a call can end. The sentinels are those of storage/errors.go and
-- server/errors.go and mysql/errors.go, and those of etcd's raft that the storage returns.
use mathlib.Core.Path.{◌≡◌, refl}

-- `os_error` stands for any error of a system call, `decode_error` for any of a decoder.
pub data Error : Type 0 where
  key_not_found key_is_nil args_illegal not_contain out_of_bound not_continuous : Error
  closed not_writable : Error
  compacted unavailable : Error
  update_state_error large_packet invalid_length invalid_sequence unexpected_eof : Error
  unsupport uuid_is_null : Error
  id_removed id_exists id_not_found peer_url_exists : Error
  not_enough_started_members unhealthy : Error
  no_such_user access_denied bad_conn : Error
  os_error decode_error : Error

-- `panic` is a run that does not go on: log.Fatalf, log.Panicf and slice bounds out of range.
pub data Result {ℓ} (A : Type ℓ) : Type ℓ where
  ok : A → Result A
  err : Error → Result A
  panic : Result A

infixl 5 ◌>>=◌
abbrev pub ◌>>=◌ {ℓ κ} : {A : Type ℓ} {B : Type κ} → Result A → (A → Result B) → Result B
ok a >>= f = f a
err e >>= f = err e
panic >>= f = panic

-- A chain that returned returned at its first link.
module _ {A B : Type 0} where
  pub returned :
      (r : Result A) (f : A → Result B) (v : B)
      → (r >>= f) ≡ ok v
      → (a : A) × ((r ≡ ok a) × (f a ≡ ok v))
  returned (ok a) f v h = (a, (refl, h))
  returned (err e) f v h = cc
  returned panic f v h = cc
