-- ===== src/Raft/Settled.antt =====
-- A node that is not the leader sends nothing while a configuration change is being applied.
use mathlib.Core.Path.{subst}
use kingbus.Common.{
  ℕ, ◌≡◌, refl, sym, ap, ◌∙◌, Bool, true, false, not, Option, none, some, List, [], ◌∷◌, ◌++◌,
  arith, Result, ok,
}
use kingbus.Storage.Env.{Entry}
use kingbus.Raft.{
  Message, SoftState, Ready, Task, update_lead, process, send, hand_over, wait_applied, advance,
  tasks_of, last_read_state, leads, when, has_conf_change, lead_task, hard_state_task,
  follower_tasks,
}
use kingbus.Raft.System.{
  Libraries, System, perform, IsFree, Step, receive, perform_task, hand, apply_handed, wait, Reach,
  here, next,
}

-- What a task makes of being the leader, and of there being no configuration change that is being
-- applied.
abbrev lead_after : Task → Bool → Bool
lead_after (update_lead x) lead = x.is_leader
lead_after _ lead = lead

abbrev settled_after : Task → Bool → Bool
settled_after (hand_over es) settled = not (has_conf_change es)
settled_after wait_applied settled = true
settled_after _ settled = settled

-- A send is by the leader, or settled.
abbrev MaySend : Task → Bool → Bool → Type 0
MaySend send lead settled = lead ≡ false → settled ≡ true
MaySend _ lead settled = Unit

abbrev Guarded : List Task → Bool → Bool → Type 0
Guarded [] lead settled = Unit
Guarded (k ∷ ks) lead settled =
    MaySend k lead settled × Guarded ks (lead_after k lead) (settled_after k settled)

-- The more is settled, the more may be sent.
settled_after-more :
    (k : Task) (a b : Bool)
    → (a ≡ true → b ≡ true)
    → settled_after k a ≡ true
    → settled_after k b ≡ true
settled_after-more (hand_over es) a b h e = e
settled_after-more wait_applied a b h e = refl
settled_after-more k a b h e = h e

MaySend-more :
    (k : Task) (lead a b : Bool) → (a ≡ true → b ≡ true) → MaySend k lead a → MaySend k lead b
MaySend-more send lead a b h m = λ f. h (m f)
MaySend-more k lead a b h m = m

Guarded-more :
    (ks : List Task) (lead a b : Bool)
    → (a ≡ true → b ≡ true)
    → Guarded ks lead a
    → Guarded ks lead b
Guarded-more [] lead a b h g = tt
Guarded-more (k ∷ ks) lead a b h g = (
  MaySend-more k lead a b h g.0,
  Guarded-more ks (lead_after k lead) (settled_after k a) (settled_after k b)
      (settled_after-more k a b h) g.1,
)

-- The tasks of a Ready, piece by piece.
Guarded-lead :
    (x : Option SoftState) (ks : List Task) (lead settled : Bool)
    → Guarded ks (leads x lead) settled
    → Guarded (lead_task x ++ ks) lead settled
unfolding leads
Guarded-lead none ks lead settled g = g
Guarded-lead (some x) ks lead settled g = (tt, g)

Guarded-read_state :
    (rs : List (List ℕ)) (ks : List Task) (lead settled : Bool)
    → Guarded ks lead settled
    → Guarded (last_read_state rs ++ ks) lead settled
unfolding last_read_state
Guarded-read_state [] ks lead settled g = g
Guarded-read_state (r ∷ []) ks lead settled g = (tt, g)
Guarded-read_state (r ∷ q ∷ rs) ks lead settled g = Guarded-read_state (q ∷ rs) ks lead settled g

Guarded-first_send :
    (ms : List Message) (ks : List Task) (lead settled : Bool)
    → Guarded ks lead settled
    → Guarded (when lead (process ms ∷ send ∷ []) ++ ks) lead settled
Guarded-first_send ms ks true settled g = (tt, (λ f. cc, g))
Guarded-first_send ms ks false settled g = g

Guarded-hard_state :
    (x : Option (List ℕ)) (ks : List Task) (lead settled : Bool)
    → Guarded ks lead settled
    → Guarded (hard_state_task x ++ ks) lead settled
Guarded-hard_state none ks lead settled g = g
Guarded-hard_state (some x) ks lead settled g = (tt, g)

Guarded-waited :
    (changes : Bool)
    → Guarded ((when changes (wait_applied ∷ []) ++ send ∷ []) ++ advance ∷ []) false (not changes)
Guarded-waited true = (tt, (λ f. refl, (tt, tt)))
Guarded-waited false = (λ f. refl, (tt, tt))

Guarded-follower :
    (rd : Ready) (lead : Bool)
    → Guarded
        (when (not lead) (follower_tasks rd) ++ advance ∷ [])
        lead
        (not (has_conf_change rd.committed_entries))
unfolding follower_tasks
Guarded-follower rd true = (tt, tt)
Guarded-follower rd false = (tt, Guarded-waited (has_conf_change rd.committed_entries))

Guarded-ready : (rd : Ready) (lead settled : Bool) → Guarded (tasks_of lead rd) lead settled
unfolding tasks_of
Guarded-ready rd lead settled =
    let now = leads rd.soft_state lead in
    Guarded-lead rd.soft_state _ lead settled (
      Guarded-read_state rd.read_states _ now settled (
        tt,
        Guarded-first_send rd.messages _ now settled
            (Guarded-hard_state rd.hard_state _ now settled (tt, (tt, Guarded-follower rd now))),
      ))

-- No configuration change is being applied.
abbrev settled_with : Option (List Entry) → Bool
settled_with none = true
settled_with (some es) = not (has_conf_change es)

-- The tasks send only where they may; where the second goroutine has told that it has done, it has.
record IsSettled {D G R : Type 0} (s : System D G R) : Type 0 where
  guarded : Guarded s.tasks s.is_lead (settled_with s.handed)
  told : s.notified ≡ true → s.handed ≡ none

module _ {D G U R : Type 0} (lib : Libraries D G U R) where
  -- What a task that does not wait leaves.
  abbrev Told : Task → System D G R → System D G R → Type 0
  Told k s t =
      (t.tasks ≡ s.tasks)
      × ((t.is_lead ≡ lead_after k s.is_lead) × ((t.handed ≡ s.handed) × (t.notified ≡ s.notified)))

  Told-of :
      (s t : System D G R) (k : Task) (p : Result (Unit {0}) × System D G R)
      → p ≡ (ok tt, t)
      → Told k s p.1
      → Told k s t
  Told-of s t k p h x = subst (λ (q : Result (Unit {0}) × System D G R). Told k s q.1) h x

  performed :
      (k : Task) (s t : System D G R) → IsFree lib k → perform lib k s ≡ (ok tt, t) → Told k s t
  unfolding perform
  performed (hand_over es) s t free h = elim free [ ]
  performed wait_applied s t free h = elim free [ ]
  performed k s t free h = Told-of s t k (perform lib k s) h (refl, (refl, (refl, refl)))

  free-settled : (k : Task) (a : Bool) → IsFree lib k → settled_after k a ≡ a
  free-settled (hand_over es) a free = elim free [ ]
  free-settled wait_applied a free = elim free [ ]
  free-settled k a free = refl

  performed-IsSettled :
      (k : Task) (ks : List Task) (s t : System D G R)
      → IsSettled s
      → s.tasks ≡ k ∷ ks
      → IsFree lib k
      → Told k (record s { tasks = ks }) t
      → IsSettled t
  performed-IsSettled k ks s t o at free (tasks, (lead, (handed, notified))) =
      let g = subst (λ ts. Guarded ts s.is_lead (settled_with s.handed)) at o.guarded in
      let after : Guarded ks (lead_after k s.is_lead) (settled_with s.handed) =
        subst (λ a. Guarded ks (lead_after k s.is_lead) a)
          (free-settled k (settled_with s.handed) free) g.1 in
      record {
        guarded =
            subst (λ ts. Guarded ts t.is_lead (settled_with t.handed)) (sym tasks)
              (subst (λ l. Guarded ks l (settled_with t.handed)) (sym lead)
                (subst (λ h. Guarded ks (lead_after k s.is_lead) (settled_with h)) (sym handed)
                  after));
        told = λ n. handed ∙ o.told (sym notified ∙ n);
      }

  Step-IsSettled : (s t : System D G R) → IsSettled s → Step lib s t → IsSettled t
  Step-IsSettled s t o (receive rd idle r e) =
      subst IsSettled (sym e)
        (record { guarded = Guarded-ready rd s.is_lead (settled_with s.handed); told = o.told })
  Step-IsSettled s t o (perform_task k ks at free run) =
      performed-IsSettled k ks s t o at free (performed k (record s { tasks = ks }) t free run)
  Step-IsSettled s t o (hand es ks at idle e) =
      let g = subst (λ ts. Guarded ts s.is_lead (settled_with s.handed)) at o.guarded in
      subst IsSettled (sym e) (record { guarded = g.1; told = λ n. cc })
  Step-IsSettled s t o (apply_handed es u busy run e) = subst IsSettled (sym e) (record {
    guarded = Guarded-more s.tasks s.is_lead (settled_with s.handed) true (λ x. refl) o.guarded;
    told = λ n. refl;
  })
  Step-IsSettled s t o (wait ks at done e) =
      let g = subst (λ ts. Guarded ts s.is_lead (settled_with s.handed)) at o.guarded in
      subst IsSettled (sym e) (record {
        guarded = subst (λ h. Guarded ks s.is_lead (settled_with h)) (sym (o.told done)) g.1;
        told = λ n. cc;
      })

  Reach-IsSettled : (s t : System D G R) → IsSettled s → Reach lib s t → IsSettled t
  Reach-IsSettled s t o here = o
  Reach-IsSettled s t o (next {t = u} r st) = Step-IsSettled u t (Reach-IsSettled s u o r) st

  -- In every state that the two goroutines reach from one with no task and nothing handed over, a
  -- node that is not the leader and is about to send while entries are being applied applies no
  -- configuration change among them.
  pub Reach-settled :
      (s t : System D G R) (es : List Entry) (ks : List Task)
      → s.tasks ≡ []
      → s.handed ≡ none
      → Reach lib s t
      → t.tasks ≡ send ∷ ks
      → t.is_lead ≡ false
      → t.handed ≡ some es
      → has_conf_change es ≡ false
  Reach-settled s t es ks idle free r at follows busy =
      let start : IsSettled s = record { guarded = rw idle tt; told = λ n. free } in
      let o = Reach-IsSettled s t start r in
      let g = subst (λ ts. Guarded ts t.is_lead (settled_with t.handed)) at o.guarded in
      let done : settled_with t.handed ≡ true = g.0 follows in
      ground (arith, ap settled_with busy, done)
