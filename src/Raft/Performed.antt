-- ===== src/Raft/Performed.antt =====
-- What a task of the raft node leaves of the log, of the handed entries and of the applied index.
use kingbus.Common.{
  ℕ, ◌+◌, ◌^◌, ◌<◌, ◌≤◌, ◌≡◌, refl, sym, ap, ◌∙◌, List, [], ◌∷◌, arith, length, Result, ok, err,
  panic,
}
use kingbus.Storage.Env.{Entry}
use kingbus.Storage.Disk.{last_index, append_raft_entries}
use kingbus.MetaStore.Gtid.{disk_metadata, fatal}
use kingbus.Apply.Range.{IsRun, last_run}
use kingbus.Raft.{Task, append_entries, hand_over, wait_applied}
use kingbus.Raft.System.{Libraries, System, disk_of, perform, IsFree}
use kingbus.Raft.Fits.{last_after, Allowed}
use kingbus.Raft.Stored.{append_raft_entries-last}

run-bound : (i : ℕ) (es : List Entry) → i < 2 ^ 64 → IsRun i es → i + length es < 2 ^ 64
run-bound i [] lt run = omega (arith, lt)
run-bound i (e ∷ es) lt (at, (bound, run)) = omega (arith, run-bound (i + 1) es bound run)

fatal-ok : (r : Result (Unit {0})) → fatal r ≡ ok tt → r ≡ ok tt
unfolding fatal
fatal-ok (ok tt) h = refl
fatal-ok (err e) h = cc
fatal-ok panic h = cc

module _ {D G R : Type 0} where
  abbrev pub last : System D G R → ℕ
  last s = last_index (disk_of s)

  -- What a task that does not wait leaves.
  abbrev pub Performed : Task → System D G R → System D G R → Type 0
  Performed k s t =
      (t.tasks ≡ s.tasks)
      × ((last_after k (last s) ≤ last t)
          × ((t.handed ≡ s.handed) × (t.server.applied_index ≡ s.server.applied_index)))

  -- A task by which neither the log nor the server's index changes.
  still :
      (s t : System D G R) (k : Task) (p : Result (Unit {0}) × System D G R)
      → p ≡ (ok tt, t)
      → ((n : ℕ) → last_after k n ≡ n)
      → p.1.tasks ≡ s.tasks
      → p.1.segments ≡ s.segments
      → p.1.handed ≡ s.handed
      → p.1.server.applied_index ≡ s.server.applied_index
      → Performed k s t
  unfolding last_index
  still s t k p h same tasks segments handed applied = (
    ap (λ (x : Result (Unit {0}) × System D G R). x.1.tasks) (sym h) ∙ tasks,
    (
      omega (
        arith,
        same (last s),
        ap (λ (x : Result (Unit {0}) × System D G R). last_index (disk_of x.1)) h,
        ap (λ ss. last_index (record (disk_of s) { segments = ss })) segments,
      ),
      (
        ap (λ (x : Result (Unit {0}) × System D G R). x.1.handed) (sym h) ∙ handed,
        ap (λ (x : Result (Unit {0}) × System D G R). x.1.server.applied_index) (sym h) ∙ applied,
      ),
    ),
  )

module _ {D G U R : Type 0} (lib : Libraries D G U R) where
  appended :
      (e : Entry) (es : List Entry) (s t : System D G R)
      → IsRun e.index (e ∷ es)
      → perform lib (append_entries (e ∷ es)) s ≡ (ok tt, t)
      → Performed (append_entries (e ∷ es)) s t
  unfolding perform last_index
  appended e es s t run h =
      let m =
        append_raft_entries lib.env (disk_metadata lib.bolt lib.gtids) lib.segment_size (e ∷ es)
          (disk_of s) in
      let ran : m ≡ (ok tt, m.1) =
        ap (λ (r : Result (Unit {0})). (r, m.1))
          (fatal-ok m.0 (ap (λ (x : Result (Unit {0}) × System D G R). x.0) h)) in
      let end = last_run e.index es run.1.1 in
      let reach =
        append_raft_entries-last lib.env (disk_metadata lib.bolt lib.gtids) lib.segment_size e es
          (disk_of s) m.1 (run-bound e.index (e ∷ es) (omega (arith, run.1.0)) run) ran in
      (
        ap (λ (x : Result (Unit {0}) × System D G R). x.1.tasks) (sym h),
        (
          omega (
            arith,
            end,
            reach,
            ap (λ (x : Result (Unit {0}) × System D G R). last_index (disk_of x.1)) h,
          ),
          (
            ap (λ (x : Result (Unit {0}) × System D G R). x.1.handed) (sym h),
            ap (λ (x : Result (Unit {0}) × System D G R). x.1.server.applied_index) (sym h),
          ),
        ),
      )

  pub performed :
      (k : Task) (s t : System D G R) (n : ℕ)
      → IsFree lib k
      → Allowed k n
      → perform lib k s ≡ (ok tt, t)
      → Performed k s t
  unfolding perform append_raft_entries
  performed (append_entries []) s t n free ok_ h =
      still s t (append_entries []) (perform lib (append_entries []) s) h (λ m. refl) refl refl refl
        refl
  performed (append_entries (e ∷ es)) s t n free ok_ h = appended e es s t ok_.1 h
  performed (hand_over es) s t n free ok_ h = elim free [ ]
  performed wait_applied s t n free ok_ h = elim free [ ]
  performed k s t n free ok_ h = still s t k (perform lib k s) h (λ m. refl) refl refl refl refl
