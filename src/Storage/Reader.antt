-- ===== src/Storage/Reader.antt =====
-- storage/disk_storage.go: the reader that goes through the log entry by entry, and the flag by
-- which a start knows whether the storage was closed.
pub mod Held
pub mod Flag
use kingbus.Common.{
  ℕ, ◌+◌, ◌-◌, ◌%◌, ◌^◌, Bool, true, false, Option, none, some, List, [], ◌∷◌, if◌then◌else◌,
  bytes_eq, Result, ok, err, panic,
}
use kingbus.Common
use kingbus.Exec.{Exec, ◌>>=◌, ◌>>◌, pure}
use kingbus.Storage.Env.{Env, Entry}
use kingbus.Storage.Disk.{DiskStorage, check_raft_index, entries}
use kingbus.Store.{Store, need_recover}

-- The storage that it reads is given to each call.
pub record DiskEntryReader : Type 0 where
  pub index_read_at : ℕ  -- uint64

-- The first of the entries; there is one where the call has no error, or the index is out of range.
unfoldable pub first_of : DiskEntryReader → List Entry → Result (Entry × DiskEntryReader)
first_of r [] = panic
first_of r (e ∷ es) = ok (e, record { index_read_at = (r.index_read_at + 1) % 2 ^ 64 })

module _ {M : Type 0} where
  unfoldable pub new_entry_reader_at : DiskStorage M → ℕ → Result DiskEntryReader
  unfolding check_raft_index
  new_entry_reader_at d raft_index =
      Common.◌>>=◌ (check_raft_index d raft_index) λ _. ok (record { index_read_at = raft_index })

  unfoldable pub get_next : Env → DiskStorage M → DiskEntryReader → Result (Entry × DiskEntryReader)
  unfolding entries first_of
  get_next v d r =
      Common.◌>>=◌ (entries v d r.index_read_at ((r.index_read_at + 1) % 2 ^ 64) (2 ^ 64 - 1))
        (first_of r)

  -- The reader as the loop of DumpBinlogAt uses it: the entry at an index.
  unfoldable pub entry_at_index : Env → DiskStorage M → ℕ → Result Entry
  unfolding get_next
  entry_at_index v d i = Common.◌>>=◌ (get_next v d (record { index_read_at = i })) λ x. ok x.0

-- The texts "true" and "false".
abbrev pub true_text : List ℕ
true_text = b't' ∷ b'r' ∷ b'u' ∷ b'e' ∷ []

abbrev pub false_text : List ℕ
false_text = b'f' ∷ b'a' ∷ b'l' ∷ b's' ∷ b'e' ∷ []

unfoldable pub flag_of : Result (Option (List ℕ)) → Result Bool
flag_of (ok none) = ok false
flag_of (ok (some v)) = ok (bytes_eq v true_text)
flag_of (err e) = panic
flag_of panic = panic

module _ {S : Type 0} (st : Store S) where
  -- getRecover and setRecover; an error is fatal.
  unfoldable pub get_recover : S → Result Bool
  unfolding flag_of
  get_recover s = flag_of (st.get s need_recover)

  unfoldable pub set_recover : Bool → Exec S (Unit {0})
  set_recover flag s = elim (st.set need_recover (if flag then true_text else false_text) s) [
    | none ↦ (panic, s)
    | some t ↦ (ok tt, t)
  ]

  -- The flag in NewDiskStorage: it is read where there are log files, and set. The result is
  -- whether the index of the last segment is rebuilt.
  unfoldable pub start_flag : Bool → Exec S Bool
  unfolding get_recover set_recover
  start_flag exist_log = do
    recover ← λ s. (if exist_log then get_recover s else ok false, s)
    set_recover true
    pure recover

  -- The flag in Close, when the segments are closed.
  unfoldable pub close_flag : Exec S (Unit {0})
  unfolding set_recover
  close_flag s = set_recover false s
