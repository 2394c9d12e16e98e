-- ===== src/MetaStore.antt =====
-- storage/meta_storage.go: the state of raft, the gtid sets and the indexes of binlog events, in
-- one database. The keys' paths are built of a prefix and an index, and split again, by `at`.
pub mod Gtid
pub mod LogName
pub mod Previous
pub mod Purge
pub mod Reads
mod Tests
pub mod Writes
use kingbus.Common.{
  ℕ, zero, suc, ◌+◌, ◌-◌, ◌*◌, ◌/◌, ◌%◌, ◌^◌, Bool, true, false, Option, none, some, List, [], ◌∷◌,
  ◌++◌, map, length, ltb, leb, ◌==◌, ◌&&◌, replicate, if◌then◌else◌, Error, key_not_found,
  not_contain, os_error, decode_error, Result, ok, err, panic, ◌>>=◌,
}
use kingbus.Exec
use kingbus.Exec.{Exec, must}
use kingbus.Boundary.{bytes}
use kingbus.Store.{
  Store, Prefix, fde, next_binlog, pre_gtids, StoreKey, hard_state, conf_state, executed_gtids,
  gtid_purged, apply_index, at,
}
use kingbus.Bolt.{Bolt, Write, put_value, delete_key}
use kingbus.Gtids.{Gtids}

-- encoding/json on the two states of raft.
pub record RaftJson (H C : Type 0) : Type 0 where
  pub no_hard_state : H
  pub no_conf_state : C
  pub encode_hard_state : H → Option (List ℕ)
  pub decode_hard_state : List ℕ → Option H
  pub decode_conf_state : List ℕ → Option C

-- A value that is there is decoded.
decoded : {A : Type 0} → A → (List ℕ → Option A) → Option (List ℕ) → Result A
decoded a decode none = ok a
decoded a decode (some v) = elim (decode v) [ none ↦ err decode_error | some x ↦ ok x ]

-- The loop of GetFde, which stops at the first key that is not before the index.
unfoldable pub fde_before : ℕ → List ℕ → List (ℕ × List ℕ) → List ℕ
fde_before pre found [] = found
fde_before pre found ((i, v) ∷ l) =
    let rest = fde_before pre v l in if ltb i pre then rest else found

module _ {D : Type 0} (b : Bolt D) where
  -- DB.Update: the closure reads the database and writes to it, or rolls back with its error.
  unfoldable pub transact : (D → Result (List Write)) → Exec D (Unit {0})
  transact f d = elim (f d) [
    | ok ws ↦ elim (b.update ws d) [ none ↦ (err os_error, d) | some e ↦ (ok tt, e) ]
    | err e ↦ (err e, d)
    | panic ↦ (panic, d)
  ]

  unfoldable pub get_value : StoreKey → D → Result (Option (List ℕ))
  get_value k d = b.value d k

  unfoldable pub set_value : StoreKey → List ℕ → Exec D (Unit {0})
  unfolding transact
  set_value k v = transact λ d. ok (put_value k v ∷ [])

  unfoldable pub delete_value : StoreKey → Exec D (Unit {0})
  unfolding transact
  delete_value k = transact λ d. ok (delete_key k ∷ [])

  -- The database as the store of single values.
  unfoldable pub meta_store : Store D
  unfolding get_value
  meta_store = record { get = λ d k. get_value k d; set = λ k v d. b.update (put_value k v ∷ []) d }

  module _ {H C : Type 0} (js : RaftJson H C) where
    unfoldable pub initial_state : D → Result (H × C)
    unfolding get_value decoded
    initial_state d = get_value hard_state d >>= λ hv.
        decoded js.no_hard_state js.decode_hard_state hv >>= λ h. get_value conf_state d >>= λ cv.
        decoded js.no_conf_state js.decode_conf_state cv >>= λ c. ok (h, c)

    unfoldable pub save_hard_state : H → Exec D (Unit {0})
    unfolding set_value
    save_hard_state h = elim (js.encode_hard_state h) [
      | none ↦ Exec.raise decode_error
      | some v ↦ set_value hard_state v
    ]

  unfoldable pub get_fde : ℕ → D → Result (List ℕ)
  unfolding fde_before
  get_fde pre d = b.scan d fde >>= λ l.
      let found = fde_before pre [] l in if length found == 0 then err not_contain else ok found
