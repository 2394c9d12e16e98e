-- ===== src/MetaStore/Tests.antt =====
-- Small databases of the metadata store.
use kingbus.Common.{ℕ, ◌≡◌, refl, ◌⊎◌, some, List, [], ◌∷◌, ◌++◌, ok, err, os_error}
use kingbus.Store.{
  Prefix-discrete, StoreKey-discrete, fde, pre_gtids, at, gtid_purged, executed_gtids, apply_index,
}
use kingbus.Bolt.{Write, put_value, delete_key}
use kingbus.MetaStore.{get_value, get_fde}
use kingbus.MetaStore.Gtid.{
  set_binlog_progress, get_gtid_set, big_endian, get_previous_gtid_set, update_puged_gtidset,
  set_or_empty, deletes_before,
}
use kingbus.MetaStore.Reads.{stored, get_fde_lem, get_previous_gtid_set_lem}
use kingbus.MetaStore.Writes.{set_binlog_progress_lem}
use kingbus.MetaStore.Purge.{update_puged_gtidset_lem, from}
use kingbus.Concrete.Database.{memory_bolt, memory_bolt-IsBolt}
use kingbus.Concrete.Sets.{number_sets, number_sets-IsGtids}

-- Two binlog files, which begin at the raft indexes 3 and 8.
abbrev two_files : List Write
two_files =
    put_value (at fde 2) (15 ∷ [])
    ∷ put_value (at pre_gtids 3) (1 ∷ [])
    ∷ put_value (at fde 7) (16 ∷ [])
    ∷ put_value (at pre_gtids 8) (1 ∷ 2 ∷ [])
    ∷ put_value gtid_purged (5 ∷ [])
    ∷ []

get_fde_lem_example : get_fde memory_bolt 8 two_files ≡ ok (16 ∷ [])
unfolding memory_bolt Prefix-discrete
get_fde_lem_example =
    get_fde_lem memory_bolt two_files ((2, 15 ∷ []) ∷ (7, 16 ∷ []) ∷ []) 8 memory_bolt-IsBolt refl

abbrev two_sets : List (ℕ × List ℕ)
two_sets = (3, 1 ∷ []) ∷ (8, 1 ∷ 2 ∷ []) ∷ []

-- A slave that has the ids 1, 2 and 3 starts at the second file.
get_previous_gtid_set_lem_example :
    get_previous_gtid_set memory_bolt number_sets (1 ∷ 2 ∷ 3 ∷ []) two_files ≡ ok 8
unfolding memory_bolt Prefix-discrete number_sets
get_previous_gtid_set_lem_example =
    get_previous_gtid_set_lem number_sets memory_bolt two_files (1 ∷ 2 ∷ 3 ∷ []) two_sets
      number_sets-IsGtids refl

set_binlog_progress_lem_example :
    (set_binlog_progress memory_bolt number_sets 300 (1 ∷ 2 ∷ []) two_files
      ≡ (err os_error, two_files))
    ⊎ ((e : List Write) × ((set_binlog_progress memory_bolt number_sets 300 (1 ∷ 2 ∷ []) two_files
            ≡ (ok tt, e))
          × ((get_gtid_set memory_bolt number_sets executed_gtids e ≡ ok (1 ∷ 2 ∷ []))
              × (memory_bolt.value e apply_index ≡ ok (some (big_endian 8 300))))))
set_binlog_progress_lem_example =
    set_binlog_progress_lem memory_bolt number_sets 300 (1 ∷ 2 ∷ []) two_files memory_bolt-IsBolt
      number_sets-IsGtids

abbrev with_third : List Write
with_third = two_files ++ put_value (at pre_gtids 12) (1 ∷ 2 ∷ 3 ∷ []) ∷ []

-- The log now begins at 5: the set of the file at 8 is purged, and that of the file at 3 goes.
abbrev after_purge : List Write
after_purge = put_value gtid_purged (5 ∷ 1 ∷ 2 ∷ []) ∷ delete_key (at pre_gtids 3) ∷ []

update_puged_gtidset_lem_example :
    (update_puged_gtidset memory_bolt number_sets 5 two_files ≡ (ok tt, two_files ++ after_purge))
    × ((get_gtid_set memory_bolt number_sets gtid_purged (two_files ++ after_purge)
          ≡ ok (5 ∷ 1 ∷ 2 ∷ []))
        × (memory_bolt.scan (two_files ++ after_purge) pre_gtids
            ≡ ok (stored number_sets (from 5 two_sets))))
unfolding memory_bolt Prefix-discrete StoreKey-discrete number_sets get_gtid_set get_value
    set_or_empty deletes_before
update_puged_gtidset_lem_example =
    update_puged_gtidset_lem memory_bolt number_sets memory_bolt-IsBolt number_sets-IsGtids 5
      two_sets (1 ∷ 2 ∷ []) (5 ∷ []) (5 ∷ 1 ∷ 2 ∷ []) two_files
      (two_files ++ put_value gtid_purged (5 ∷ 1 ∷ 2 ∷ []) ∷ []) (two_files ++ after_purge) refl
      refl refl refl refl refl refl
