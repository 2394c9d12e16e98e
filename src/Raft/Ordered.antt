-- ===== src/Raft/Ordered.antt =====
-- No entry is applied that is not in the log: the invariant of the two goroutines.
use mathlib.Core.Path.{subst}
use kingbus.Common.{
  ℕ, ◌+◌, ◌^◌, ◌<◌, ◌≤◌, ◌≡◌, refl, sym, ap, true, Option, none, some, List, [], ◌∷◌, arith,
}
use kingbus.Storage.Env.{Entry}
use kingbus.Storage.Disk.{last_index}
use kingbus.Apply.{KingbusServer}
use kingbus.Apply.Range.{last_index_of, last_run}
use kingbus.Raft.{
  Ready, raise_committed, update_committed_index, Task, append_entries, hand_over, tasks_of,
}
use kingbus.Raft.System.{
  Libraries, System, disk_of, CountsUp, ReplacesNone, IsReady, Step, receive, perform_task, hand,
  apply_handed, wait, Reach, here, next,
}
use kingbus.Raft.Applied.{apply_all-index}
use kingbus.Raft.Fits.{last_after, used_after, Allowed, Fits, Fits-used, Fits-mono, Fits-ready}
use kingbus.Raft.Performed.{last, Performed, performed}

-- The last index that is applied or being applied.
abbrev pub used_with : Option (List Entry) → ℕ → ℕ
used_with none applied = applied
used_with (some es) applied = update_committed_index es applied

abbrev pub RunIn : Option (List Entry) → Type 0
RunIn none = Unit
RunIn (some es) = CountsUp es

module _ {D G R : Type 0} where
  abbrev pub used : System D G R → ℕ
  used s = used_with s.handed s.server.applied_index

  -- What the tasks still do keeps the entries that are used in the log; a batch that is being
  -- applied counts up.
  pub record IsOrdered (s : System D G R) : Type 0 where
    pub fits : Fits s.tasks (last s) (used s)
    pub run : RunIn s.handed
    pub bounded : s.server.applied_index + 1 < 2 ^ 64

applied-used : (h : Option (List Entry)) (applied : ℕ) → applied ≤ used_with h applied
unfolding update_committed_index raise_committed
applied-used none applied = omega arith
applied-used (some es) applied = ground arith

used_after-more : (k : Task) (n : ℕ) → n ≤ used_after k n
unfolding update_committed_index raise_committed
used_after-more (hand_over es) n = ground arith
used_after-more k n = omega arith

module _ {D G U R : Type 0} (lib : Libraries D G U R) where
  handed-fresh :
      (h : Option (List Entry)) (applied i : ℕ)
      → applied < i
      → ((us : List Entry) → h ≡ some us → last_index_of 0 us < i)
      → used_with h applied < i
  unfolding update_committed_index raise_committed
  handed-fresh none applied i a b = a
  handed-fresh (some es) applied i a b = ground (arith, a, b es refl)

  ready-Allowed :
      (s : System D G R) (es : List Entry)
      → ReplacesNone s es
      → CountsUp es
      → Allowed (append_entries es) (used s)
  ready-Allowed s [] h run = tt
  ready-Allowed s (e ∷ es) h run =
      (handed-fresh s.handed s.server.applied_index e.index h.0 h.1, run.1)

  -- The log is no shorter once the new entries are in it.
  grows :
      (es : List Entry) (n m : ℕ)
      → n ≤ m
      → Allowed (append_entries es) n
      → (n ≤ last_after (append_entries es) m)
        × (last_index_of m es ≡ last_after (append_entries es) m)
  grows [] n m h a = (h, refl)
  grows (e ∷ es) n m h (lt, run) = (omega (arith, lt, last_run e.index es run.1.1), refl)

  still_kept :
      (cs : List Entry) (n m : ℕ) → n ≤ m → last_index_of 0 cs ≤ m → update_committed_index cs n ≤ m
  unfolding update_committed_index raise_committed
  still_kept cs n m a b = ground arith

  received :
      (s : System D G R) (rd : Ready)
      → IsReady s rd
      → used s ≤ last s
      → Fits (tasks_of s.is_lead rd) (last s) (used s)
  received s rd r within =
      let allowed : Allowed (append_entries rd.entries) (used s) =
        ready-Allowed s rd.entries r.fresh r.numbered in
      let (more, same) = grows rd.entries (used s) (last s) within allowed in
      let stored : last_index_of 0 rd.committed_entries
          ≤ last_after (append_entries rd.entries) (last s) =
        omega (arith, r.stored, same) in
      Fits-ready s.is_lead rd (last s) (used s) (
        within,
        (
          allowed,
          (
            more,
            (
              r.committed_numbered,
              still_kept rd.committed_entries (used s)
                  (last_after (append_entries rd.entries) (last s)) more stored,
            ),
          ),
        ),
      )

  Performed-IsOrdered :
      (k : Task) (ks : List Task) (s t : System D G R)
      → IsOrdered s
      → Fits (k ∷ ks) (last s) (used s)
      → Performed k (record s { tasks = ks }) t
      → IsOrdered t
  Performed-IsOrdered k ks s t o f (tasks, (more, (handed, applied))) = record {
    fits =
        subst (λ ts. Fits ts (last t) (used t)) (sym tasks)
          (Fits-mono ks (last_after k (last s)) (used_after k (used s)) (last t) (used t) more
            (omega (
              arith,
              used_after-more k (used s),
              ap (λ h. used_with h t.server.applied_index) handed,
              ap (λ n. used_with s.handed n) applied,
            ))
            f.1.1);
    run = subst RunIn (sym handed) o.run;
    bounded = omega (arith, applied, o.bounded);
  }

  applied-IsOrdered :
      (es : List Entry) (s : System D G R) (u : KingbusServer D G R)
      → IsOrdered s
      → s.handed ≡ some es
      → u.applied_index ≤ update_committed_index es s.server.applied_index
      → u.applied_index + 1 < 2 ^ 64
      → IsOrdered (record s { server = u; handed = none; notified = true })
  unfolding last_index
  applied-IsOrdered es s u o busy le bound = record {
    fits =
        Fits-mono s.tasks (last s) (used s) (last s) u.applied_index (omega arith)
          (omega (arith, le, ap (λ h. used_with h s.server.applied_index) busy)) o.fits;
    run = tt;
    bounded = bound;
  }

  Step-IsOrdered : (s t : System D G R) → IsOrdered s → Step lib s t → IsOrdered t
  Step-IsOrdered s t o (receive rd idle r e) = subst IsOrdered (sym e) (record {
    fits = received s rd r (Fits-used s.tasks (last s) (used s) o.fits);
    run = o.run;
    bounded = o.bounded;
  })
  Step-IsOrdered s t o (perform_task k ks at free run) =
      let f = subst (λ ts. Fits ts (last s) (used s)) at o.fits in
      Performed-IsOrdered k ks s t o f
        (performed lib k (record s { tasks = ks }) t (used s) free f.1.0 run)
  Step-IsOrdered s t o (hand es ks at idle e) =
      let f = subst (λ ts. Fits ts (last s) (used s)) at o.fits in
      subst IsOrdered (sym e) (record {
        fits =
            subst
              (λ h.
                Fits ks (last s) (update_committed_index es (used_with h s.server.applied_index)))
              idle f.1.1;
        run = f.1.0;
        bounded = o.bounded;
      })
  Step-IsOrdered s t o (apply_handed es u busy run e) =
      let a =
        apply_all-index lib.bolt lib.gtids lib.codec lib.json lib.args lib.raft_node lib.clock es
          s.server u (subst RunIn busy o.run) o.bounded run in
      subst IsOrdered (sym e) (applied-IsOrdered es s u o busy a.0 a.1)
  Step-IsOrdered s t o (wait ks at done e) =
      let f = subst (λ ts. Fits ts (last s) (used s)) at o.fits in
      subst IsOrdered (sym e) (record { fits = f.1.1; run = o.run; bounded = o.bounded })

  Reach-IsOrdered : (s t : System D G R) → IsOrdered s → Reach lib s t → IsOrdered t
  Reach-IsOrdered s t o here = o
  Reach-IsOrdered s t o (next {t = u} r st) = Step-IsOrdered u t (Reach-IsOrdered s u o r) st

  -- In every state that the two goroutines reach, the applied index is not behind the log's last
  -- index. They start with no task and nothing handed over, from an applied index that is in the
  -- log and whose successor is a uint64; every Ready keeps what raft promises (IsReady), and no call
  -- on the way fails.
  pub Reach-stored :
      (s t : System D G R)
      → s.tasks ≡ []
      → s.handed ≡ none
      → s.server.applied_index ≤ last_index (disk_of s)
      → s.server.applied_index + 1 < 2 ^ 64
      → Reach lib s t
      → t.server.applied_index ≤ last_index (disk_of t)
  Reach-stored s t idle free inside bound r =
      let start : IsOrdered s = record {
        fits = rw (idle, free) inside;
        run = rw free tt;
        bounded = bound;
      } in
      let o = Reach-IsOrdered s t start r in
      omega (
        arith,
        applied-used t.handed t.server.applied_index,
        Fits-used t.tasks (last t) (used t) o.fits,
      )
