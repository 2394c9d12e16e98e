-- ===== src/Raft/Fits.antt =====
-- When the tasks that remain keep every entry that is applied, or being applied, in the log.
use mathlib.Core.Path.{subst}
use kingbus.Common.{
  append-nil, ℕ, ◌<◌, ◌≤◌, Bool, true, false, not, Option, none, some, List, [], ◌∷◌, ◌++◌, arith,
}
use kingbus.Storage.Env.{Entry}
use kingbus.Apply.Range.{IsRun, last_index_of}
use kingbus.Raft.System.{CountsUp}
use kingbus.Raft.{
  SoftState, Ready, raise_committed, update_committed_index, Task, commit, process, send,
  append_entries, hand_over, wait_applied, advance, tasks_of, last_read_state, leads, when,
  has_conf_change, lead_task, hard_state_task, follower_tasks,
}

-- What a task makes of the last index of the log, and of the last index that is used: that of an
-- entry that is applied or being applied.
abbrev pub last_after : Task → ℕ → ℕ
last_after (append_entries (e ∷ es)) last = last_index_of 0 (e ∷ es)
last_after _ last = last

abbrev pub used_after : Task → ℕ → ℕ
used_after (hand_over es) used = update_committed_index es used
used_after _ used = used

-- New entries replace none that is used.
abbrev pub Allowed : Task → ℕ → Type 0
Allowed (append_entries (e ∷ es)) used = (used < e.index) × IsRun e.index (e ∷ es)
Allowed (hand_over es) used = CountsUp es
Allowed _ used = Unit

-- What remains to be done keeps every entry that is used in the log.
abbrev pub Fits : List Task → ℕ → ℕ → Type 0
Fits [] last used = used ≤ last
Fits (k ∷ ks) last used =
    (used ≤ last) × (Allowed k used × Fits ks (last_after k last) (used_after k used))

pub update_committed_mono :
    (es : List Entry) (a b : ℕ) → a ≤ b → update_committed_index es a ≤ update_committed_index es b
unfolding update_committed_index raise_committed
update_committed_mono es a b h = ground arith

last_after_mono : (k : Task) (a b : ℕ) → a ≤ b → last_after k a ≤ last_after k b
last_after_mono (append_entries []) a b h = h
last_after_mono (append_entries (e ∷ es)) a b h = omega arith
last_after_mono _ a b h = h

used_after_mono : (k : Task) (a b : ℕ) → a ≤ b → used_after k a ≤ used_after k b
used_after_mono (hand_over es) a b h = update_committed_mono es a b h
used_after_mono _ a b h = h

Allowed-mono : (k : Task) (a b : ℕ) → a ≤ b → Allowed k b → Allowed k a
Allowed-mono (append_entries []) a b h x = x
Allowed-mono (append_entries (e ∷ es)) a b h x = (omega (arith, x.0, h), x.1)
Allowed-mono (hand_over es) a b h x = x
Allowed-mono _ a b h x = x

pub Fits-used : (ks : List Task) (last used : ℕ) → Fits ks last used → used ≤ last
Fits-used [] last used h = h
Fits-used (k ∷ ks) last used h = h.0

-- A longer log, and fewer entries that are used.
pub Fits-mono :
    (ks : List Task) (last used more fewer : ℕ)
    → last ≤ more
    → fewer ≤ used
    → Fits ks last used
    → Fits ks more fewer
Fits-mono [] last used more fewer a b h = omega (arith, h)
Fits-mono (k ∷ ks) last used more fewer a b h = (
  omega (arith, h.0),
  (
    Allowed-mono k fewer used b h.1.0,
    Fits-mono ks (last_after k last) (used_after k used) (last_after k more) (used_after k fewer)
        (last_after_mono k last more a) (used_after_mono k fewer used b) h.1.1,
  ),
)

-- The tasks of a Ready.
abbrev Plain : Task → Type 0
Plain (append_entries es) = ⊥
Plain (hand_over es) = ⊥
Plain _ = Unit

AllPlain : List Task → Type 0
AllPlain [] = Unit
AllPlain (k ∷ ks) = Plain k × AllPlain ks

Fits-Plain :
    (k : Task) (ks : List Task) (last used : ℕ)
    → Plain k
    → Fits ks last used
    → Fits (k ∷ ks) last used
Fits-Plain (append_entries es) ks last used p h = elim p [ ]
Fits-Plain (hand_over es) ks last used p h = elim p [ ]
Fits-Plain _ ks last used p h = (Fits-used ks last used h, (tt, h))

Fits-append :
    (xs ks : List Task) (last used : ℕ)
    → AllPlain xs
    → Fits ks last used
    → Fits (xs ++ ks) last used
unfolding AllPlain
Fits-append [] ks last used p h = h
Fits-append (x ∷ xs) ks last used p h =
    Fits-Plain x (xs ++ ks) last used p.0 (Fits-append xs ks last used p.1 h)

read_state-plain : (rs : List (List ℕ)) → AllPlain (last_read_state rs)
unfolding AllPlain last_read_state
read_state-plain [] = tt
read_state-plain (r ∷ []) = (tt, tt)
read_state-plain (r ∷ q ∷ rs) = read_state-plain (q ∷ rs)

AllPlain-append : (xs ys : List Task) → AllPlain xs → AllPlain ys → AllPlain (xs ++ ys)
unfolding AllPlain
AllPlain-append [] ys p q = q
AllPlain-append (x ∷ xs) ys p q = (p.0, AllPlain-append xs ys p.1 q)

AllPlain-when : (b : Bool) (xs : List Task) → AllPlain xs → AllPlain (when b xs)
unfolding AllPlain
AllPlain-when true xs p = p
AllPlain-when false xs p = tt

Fits-end :
    (xs tail : List Task) (last used : ℕ)
    → AllPlain tail
    → Fits xs last used
    → Fits (xs ++ tail) last used
Fits-end [] tail last used p h =
    subst (λ ks. Fits ks last used) (append-nil tail) (Fits-append tail [] last used p h)
Fits-end (x ∷ xs) tail last used p h =
    (h.0, (h.1.0, Fits-end xs tail (last_after x last) (used_after x used) p h.1.1))

lead_task-plain : (x : Option SoftState) → AllPlain (lead_task x)
unfolding AllPlain
lead_task-plain none = tt
lead_task-plain (some x) = (tt, tt)

hard_state-plain : (x : Option (List ℕ)) → AllPlain (hard_state_task x)
unfolding AllPlain
hard_state-plain none = tt
hard_state-plain (some x) = (tt, tt)

follower-plain : (rd : Ready) → AllPlain (follower_tasks rd)
unfolding AllPlain follower_tasks
follower-plain rd = (
  tt,
  AllPlain-append (when (has_conf_change rd.committed_entries) (wait_applied ∷ [])) (send ∷ [])
      (AllPlain-when (has_conf_change rd.committed_entries) (wait_applied ∷ []) (tt, tt)) (tt, tt),
)

pub Fits-ready :
    (is_lead : Bool) (rd : Ready) (last used : ℕ)
    → Fits (append_entries rd.entries ∷ hand_over rd.committed_entries ∷ []) last used
    → Fits (tasks_of is_lead rd) last used
unfolding tasks_of AllPlain
Fits-ready is_lead rd last used h =
    let lead = leads rd.soft_state is_lead in
    let end = when (not lead) (follower_tasks rd) ++ advance ∷ [] in
    let end_plain =
      AllPlain-append (when (not lead) (follower_tasks rd)) (advance ∷ [])
        (AllPlain-when (not lead) (follower_tasks rd) (follower-plain rd)) (tt, tt) in
    let writes = append_entries rd.entries ∷ hand_over rd.committed_entries ∷ [] in
    Fits-append (lead_task rd.soft_state) _ last used (lead_task-plain rd.soft_state) (
      Fits-append (last_read_state rd.read_states) _ last used (read_state-plain rd.read_states) (
        Fits-Plain (commit rd.committed_entries) _ last used tt (
          Fits-append (when lead (process rd.messages ∷ send ∷ [])) _ last used
            (AllPlain-when lead (process rd.messages ∷ send ∷ []) (tt, (tt, tt)))
            (Fits-append (hard_state_task rd.hard_state) _ last used
              (hard_state-plain rd.hard_state) (Fits-end writes end last used end_plain h)))))
