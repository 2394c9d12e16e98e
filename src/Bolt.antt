-- ===== src/Bolt.antt =====
-- The database of the metadata store (github.com/coreos/bbolt), as storage/meta_storage.go uses it:
-- one bucket of byte strings under ordered keys, read in views and changed in transactions.
use mathlib.Core.Logic.{ite}
use kingbus.Common.{
  ℕ, ◌≡◌, ◌<◌, Option, none, some, List, [], ◌∷◌, ltb, ◌==◌, if◌then◌else◌, erase, Result, ok,
}
use kingbus.Store.{Prefix, StoreKey, StoreKey-discrete, Prefix-discrete, at}

pub data Write : Type 0 where
  put_value : StoreKey → List ℕ → Write
  delete_key : StoreKey → Write

-- `value` reads a key, `scan` moves a cursor over the keys with a prefix and gives the raft index
-- and the value of each, `update` runs a transaction that makes the writes; it gives nothing where
-- the transaction fails.
pub record Bolt (D : Type 0) : Type 0 where
  pub value : D → StoreKey → Result (Option (List ℕ))
  pub scan : D → Prefix → Result (List (ℕ × List ℕ))
  pub update : List Write → D → Option D

abbrev pub value_after : StoreKey → List Write → Result (Option (List ℕ)) → Result (Option (List ℕ))
value_after k [] r = r
value_after k (put_value j v ∷ ws) r =
    value_after k ws (ite (StoreKey-discrete j k) (ok (some v)) r)
value_after k (delete_key j ∷ ws) r = value_after k ws (ite (StoreKey-discrete j k) (ok none) r)

-- A key of 20 digits stands where its number does.
abbrev pub insert_sorted {ℓ} : {V : Type ℓ} → ℕ → V → List (ℕ × V) → List (ℕ × V)
insert_sorted i v [] = (i, v) ∷ []
insert_sorted i v ((j, w) ∷ l) =
    let rest = insert_sorted i v l in
    if ltb i j then (i, v) ∷ (j, w) ∷ l else if i == j then (i, v) ∷ l else (j, w) ∷ rest

-- The prefix and the raft index of a key.
abbrev pub place : StoreKey → Option (Prefix × ℕ)
place (at q i) = some (q, i)
place _ = none

abbrev pub scan_put : Prefix → Option (Prefix × ℕ) → List ℕ → List (ℕ × List ℕ) → List (ℕ × List ℕ)
scan_put p none v l = l
scan_put p (some (q, i)) v l = ite (Prefix-discrete q p) (insert_sorted i v l) l

abbrev pub scan_delete : Prefix → Option (Prefix × ℕ) → List (ℕ × List ℕ) → List (ℕ × List ℕ)
scan_delete p none l = l
scan_delete p (some (q, i)) l = ite (Prefix-discrete q p) (erase i l) l

abbrev pub scan_write : Prefix → Write → List (ℕ × List ℕ) → List (ℕ × List ℕ)
scan_write p (put_value k v) l = scan_put p (place k) v l
scan_write p (delete_key k) l = scan_delete p (place k) l

abbrev pub scan_after : Prefix → List Write → List (ℕ × List ℕ) → List (ℕ × List ℕ)
scan_after p [] l = l
scan_after p (w ∷ ws) l = scan_after p ws (scan_write p w l)

abbrev pub Above {ℓ} : {V : Type ℓ} → ℕ → List (ℕ × V) → Type 0
Above i [] = Unit
Above i ((j, v) ∷ l) = (i < j) × Above i l

abbrev pub Ascending {ℓ} : {V : Type ℓ} → List (ℕ × V) → Type 0
Ascending [] = Unit
Ascending ((i, v) ∷ l) = Above i l × Ascending l

-- What the store relies on: a transaction makes all its writes, and a cursor reads keys in order.
pub record IsBolt {D : Type 0} (b : Bolt D) : Type 0 where
  pub value-update :
      (k : StoreKey) (ws : List Write) (d e : D)
      → b.update ws d ≡ some e
      → b.value e k ≡ value_after k ws (b.value d k)
  pub scan-update :
      (p : Prefix) (ws : List Write) (d e : D) (l : List (ℕ × List ℕ))
      → b.update ws d ≡ some e
      → b.scan d p ≡ ok l
      → b.scan e p ≡ ok (scan_after p ws l)
  pub scan-Ascending :
      (p : Prefix) (d : D) (l : List (ℕ × List ℕ)) → b.scan d p ≡ ok l → Ascending l
