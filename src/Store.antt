-- ===== src/Store.antt =====
-- storage/storage.go: the keys of the metadata, and the part of MetaStorage that reads and writes
-- one key, for the components that keep a value there.
use native.Mathlib.Decide.{ℕ_discrete}
use kingbus.Common.{ℕ, ◌≡◌, ◌≢◌, Option, some, List, Result, ok}

-- The prefixes under which keys end in a raft index, of 20 digits.
pub data Prefix : Type 0 where
  fde next_binlog pre_gtids : Prefix

-- The keys; the two of gtid sets are joined to the flavor `mysql`.
pub data StoreKey : Type 0 where
  hard_state conf_state : StoreKey
  executed_gtids gtid_purged : StoreKey
  master_info syncer_args need_recover raft_cluster apply_index : StoreKey
  at : Prefix → ℕ → StoreKey

unfoldable pub Prefix-discrete : Discrete Prefix
Prefix-discrete = hlevel

unfoldable pub StoreKey-discrete : Discrete StoreKey
StoreKey-discrete = hlevel (ℕ_discrete)

-- Get gives nothing for a missing key; Set gives nothing where it fails, and changes nothing then.
pub record Store (S : Type 0) : Type 0 where
  pub get : S → StoreKey → Result (Option (List ℕ))
  pub set : StoreKey → List ℕ → S → Option S

-- A value that was set is read back, and the other keys keep theirs.
pub record IsStore {S : Type 0} (st : Store S) : Type 0 where
  pub get-set :
      (k : StoreKey) (v : List ℕ) (s t : S) → st.set k v s ≡ some t → st.get t k ≡ ok (some v)
  pub get-set_ne :
      (j k : StoreKey) (v : List ℕ) (s t : S)
      → st.set k v s ≡ some t
      → j ≢ k
      → st.get t j ≡ st.get s j
