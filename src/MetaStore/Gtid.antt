-- ===== src/MetaStore/Gtid.antt =====
-- storage/meta_storage.go: the gtid sets, and those of the previous gtids events by raft index.
use kingbus.Common.{
  ℕ, Bool, true, false, Option, none, some, List, [], ◌∷◌, length, ltb, ◌==◌, ◌/◌, ◌%◌, ◌^◌, ◌*◌,
  zero, suc, if◌then◌else◌, not_contain, decode_error, Result, ok, err, panic, ◌>>=◌,
}
use kingbus.Exec
use kingbus.Exec.{Exec, must}
use kingbus.Store.{pre_gtids, StoreKey, executed_gtids, gtid_purged, apply_index, at}
use kingbus.Bolt.{Bolt, Write, put_value, delete_key}
use kingbus.Gtids.{Gtids}
use kingbus.MetaStore.{transact, get_value, set_value}
use kingbus.Storage.Disk.{MetaStorage}

-- binary.BigEndian.PutUint64
unfoldable pub big_endian : ℕ → ℕ → List ℕ
big_endian zero n = []
big_endian (suc k) n = (n / 2 ^ (8 * k)) % 2 ^ 8 ∷ big_endian k n

-- Log.Fatalf on any error
unfoldable pub fatal : {A : Type 0} → Result A → Result A
fatal (err e) = panic
fatal r = r

-- The keys that deletePreviousGtidSet deletes.
unfoldable pub deletes_before : ℕ → List (ℕ × List ℕ) → List Write
deletes_before last [] = []
deletes_before last ((i, v) ∷ l) =
    let rest = deletes_before last l in
    if ltb i last then delete_key (at pre_gtids i) ∷ rest else rest

module _ {G U : Type 0} (g : Gtids G U) where
  unfoldable pub decode_set : List ℕ → Result G
  decode_set v = elim (g.decode v) [ none ↦ err decode_error | some x ↦ ok x ]

  unfoldable pub set_or_empty : Option (List ℕ) → Result G
  unfolding decode_set
  set_or_empty none = ok g.empty
  set_or_empty (some v) = decode_set v

  -- Whether one of the values is the set.
  unfoldable pub exists_equal : G → List (ℕ × List ℕ) → Result Bool
  unfolding decode_set
  exists_equal x [] = ok false
  exists_equal x ((i, v) ∷ l) =
      let rest = exists_equal x l in decode_set v >>= λ y. if g.equal y x then ok true else rest

  -- The loop of GetPreviousGtidSet, with the index found so far.
  unfoldable pub last_contained : G → Option ℕ → List (ℕ × List ℕ) → Result (Option ℕ)
  unfolding decode_set
  last_contained slave found [] = ok found
  last_contained slave found ((i, v) ∷ l) =
      let here = last_contained slave (some i) l in
      let on = last_contained slave found l in
      decode_set v >>= λ x.
      if length (g.sets slave) == 0 then ok (some i) else if g.contain slave x then here else on

  -- The loop of UpdatePugedGtidset: the first set behind an index.
  unfoldable pub first_behind : ℕ → List (ℕ × List ℕ) → Result (Option G)
  unfolding decode_set
  first_behind first [] = ok none
  first_behind first ((i, v) ∷ l) =
      let rest = first_behind first l in
      if ltb first i then (decode_set v >>= λ x. ok (some x)) else rest

module _ {D G U : Type 0} (b : Bolt D) (g : Gtids G U) where
  unfoldable pub set_gtid_set : StoreKey → G → Exec D (Unit {0})
  unfolding set_value
  set_gtid_set k x = set_value b k (g.encode x)

  unfoldable pub get_gtid_set : StoreKey → D → Result G
  unfolding get_value set_or_empty
  get_gtid_set k d = get_value b k d >>= set_or_empty g

  unfoldable pub set_binlog_progress : ℕ → G → Exec D (Unit {0})
  unfolding transact big_endian
  set_binlog_progress applied x = transact b λ d.
      ok (put_value executed_gtids (g.encode x) ∷ put_value apply_index (big_endian 8 applied) ∷ [])

  unfoldable pub set_previous_gtid_set : ℕ → G → Exec D (Unit {0})
  unfolding transact exists_equal
  set_previous_gtid_set i x = transact b λ d. b.scan d pre_gtids >>= λ l.
      exists_equal g x l >>= λ exist.
      ok (if exist then [] else put_value (at pre_gtids i) (g.encode x) ∷ [])

  unfoldable pub delete_previous_gtid_set : ℕ → Exec D (Unit {0})
  unfolding transact deletes_before
  delete_previous_gtid_set last =
      transact b λ d. b.scan d pre_gtids >>= λ l. ok (deletes_before last l)

  unfoldable pub get_previous_gtid_set : G → D → Result ℕ
  unfolding last_contained
  get_previous_gtid_set slave d = b.scan d pre_gtids >>= λ l.
      last_contained g slave none l >>= λ found. elim found [
        | none ↦ err not_contain
        | some i ↦ ok i
      ]

  unfoldable pub purge_up_to : ℕ → Option G → Exec D (Unit {0})
  unfolding get_gtid_set fatal set_gtid_set delete_previous_gtid_set
  purge_up_to first none = Exec.pure tt
  purge_up_to first (some x) =
      if length (g.to_string x) == 0
      then Exec.pure tt
      else Exec.◌>>=◌ Exec.get λ d.
        Exec.◌>>=◌ (Exec.lift (fatal (get_gtid_set gtid_purged d))) λ purged.
          Exec.◌>>=◌ (Exec.lift (must (g.update (g.to_string x) purged)))
            λ more. Exec.◌>>◌ (set_gtid_set gtid_purged more) (delete_previous_gtid_set first)

  unfoldable pub update_puged_gtidset : ℕ → Exec D (Unit {0})
  unfolding first_behind purge_up_to
  update_puged_gtidset first = Exec.◌>>=◌ Exec.get λ d.
      Exec.◌>>=◌ (Exec.lift (b.scan d pre_gtids >>= first_behind g first))
        λ found. purge_up_to first found

  -- The metadata store as the disk storage calls it when segments are purged.
  unfoldable pub disk_metadata : MetaStorage D
  unfolding update_puged_gtidset
  disk_metadata = record { update_puged_gtidset = λ first. update_puged_gtidset first }
