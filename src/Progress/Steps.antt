-- ===== src/Progress/Steps.antt =====
-- The text of the executed gtids that slaves are told stays that of the set, at each step.
use kingbus.Common.{
  ℕ, ◌≡◌, refl, Bool, true, false, not, Option, none, some, List, if◌then◌else◌, Error, Result, ok,
  err, panic,
}
use kingbus.Exec.{Exec, continue, ◌>>=◌, pure}
use kingbus.Bolt.{Bolt}
use kingbus.Gtids.{Gtids}
use kingbus.MetaStore.Gtid.{set_binlog_progress}
use kingbus.Boundary.{TransactionBoundaryParser, get_event_boundary_type, update_state}
use kingbus.Progress.{
  Progress, EventCodec, or_decode_error, on_store, is_due, persist, finish, is_finished,
  after_event, body_of, update_process,
}

module _ {S : Type 0} (P : S → Type 0) where
  -- Whatever an operation returns, what holds of the state holds afterwards.
  abbrev pub Preserves : {A : Type 0} → Exec S A → Type 0
  Preserves m = (s : S) → P s → P (m s).1

  continue-Preserves :
      {A B : Type 0} (r : Result A) (u : S) (f : A → Exec S B)
      → P u
      → ((a : A) → Preserves (f a))
      → P (continue (r, u) f).1
  continue-Preserves (ok a) u f p rest = rest a u p
  continue-Preserves (err e) u f p rest = p
  continue-Preserves panic u f p rest = p

  bind-Preserves :
      {A B : Type 0} (m : Exec S A) (f : A → Exec S B)
      → Preserves m
      → ((a : A) → Preserves (f a))
      → Preserves (m >>= f)
  bind-Preserves m f first rest s p = continue-Preserves (m s).0 (m s).1 f (first s p) rest

  if-Preserves :
      {A : Type 0} (c : Bool) (m n : Exec S A)
      → Preserves m
      → Preserves n
      → Preserves (λ s. (if c then m else n) s)
  if-Preserves true m n first second = first
  if-Preserves false m n first second = second

module _ {D G U : Type 0} (b : Bolt D) (g : Gtids G U) where
  abbrev pub IsCurrent : Progress D G → Type 0
  IsCurrent s = s.progress.executed_gtid_set_str ≡ g.to_string s.progress.executed_gtid_set

  persist-IsCurrent : (index now later : ℕ) → Preserves IsCurrent (persist b g index now later)
  unfolding persist
  persist-IsCurrent index now later s p =
      if-Preserves IsCurrent (not (is_due b g index now s.progress)) (pure tt)
        (on_store b g (set_binlog_progress b g index s.progress.executed_gtid_set) >>= λ _. λ t. (
          ok tt,
          record t {
            progress = record t.progress {
              persistent_applied_index = index;
              persistent_time = later;
            };
          },
        ))
        (λ _ q. q)
        (bind-Preserves IsCurrent
          (on_store b g (set_binlog_progress b g index s.progress.executed_gtid_set)) _ (λ _ q. q)
          (λ _ _ q. q))
        s p

  finish-IsCurrent : (index now later : ℕ) → Preserves IsCurrent (finish b g index now later)
  unfolding finish
  finish-IsCurrent index now later s p =
      continue-Preserves IsCurrent
        (or_decode_error (g.update s.progress.current_gtid s.progress.executed_gtid_set)) s _ p
        (λ x t q.
          persist-IsCurrent index now later
            (record s {
              progress = record s.progress {
                executed_gtid_set = x;
                last_save_gtid = s.progress.current_gtid;
                executed_gtid_set_str = g.to_string x;
              };
            })
            refl)

  after_event-IsCurrent :
      (index now later : ℕ) (q : TransactionBoundaryParser × Option Error)
      → Preserves IsCurrent (after_event b g index now later q)
  unfolding after_event
  after_event-IsCurrent index now later (parser, some e) s p = p
  after_event-IsCurrent index now later (parser, none) s p =
      let t = record s { progress = record s.progress { trx_boundary_parser = parser } } in
      if-Preserves IsCurrent (is_finished b g t.progress) (finish b g index now later) (pure tt)
        (finish-IsCurrent index now later) (λ _ q. q) t p

  pub update_process-IsCurrent :
      (codec : EventCodec) (index now later : ℕ) (raw : List ℕ)
      → Preserves IsCurrent (update_process b g codec index now later raw)
  unfolding update_process
  update_process-IsCurrent codec index now later raw s p =
      continue-Preserves IsCurrent (or_decode_error (codec.decode_header raw)) s _ p λ h t q.
        continue-Preserves IsCurrent (body_of h raw) _ _ q λ body u r.
          continue-Preserves IsCurrent (get_event_boundary_type codec.decode_query h body) u _ r
            λ boundary v w.
              after_event-IsCurrent index now later
                (update_state v.progress.trx_boundary_parser boundary) v w
