-- ===== src/Syncer/Ask.antt =====
-- Execute: what it leaves of the syncer, and the connection behind an answer.
use kingbus.Common.{
  ℕ, zero, suc, ◌≡◌, refl, sym, ap, ◌∙◌, Bool, true, false, List, Result, ok, err, panic,
}
use kingbus.Exec.{Exec, first_returned, Leaves, Leaves-bind}
use kingbus.Syncer.{
  connect_unless, Reply, answered, refused, broken, Client, Syncer, Query, ensure_connected,
  on_reply, execute_from, execute,
}

module _ {W A G : Type 0} (client : Client W A G) where
  -- What a query has nothing to do with.
  abbrev pub kept : Syncer W → Bool × List (List ℕ)
  kept s = (s.cancelled, s.data_c)

  connect_unless-Leaves : (c : Bool) → Leaves kept (connect_unless client c)
  unfolding connect_unless
  connect_unless-Leaves true s = refl
  connect_unless-Leaves false s = refl

  ensure_connected-Leaves : Leaves kept (ensure_connected client)
  unfolding ensure_connected
  ensure_connected-Leaves s = connect_unless-Leaves s.conn s

  on_reply-Leaves :
      (p : Reply A × W) (again : Exec (Syncer W) A)
      → Leaves kept again
      → Leaves kept (on_reply client p again)
  unfolding on_reply
  on_reply-Leaves (answered a, w) again h s = refl
  on_reply-Leaves (refused e, w) again h s = refl
  on_reply-Leaves (broken, w) again h s = h (record s { conn = false; world = w })

  execute_from-Leaves : (n : ℕ) (q : Query) → Leaves kept (execute_from client n q)
  unfolding execute_from
  execute_from-Leaves zero q = λ s. refl
  execute_from-Leaves (suc n) q =
      Leaves-bind kept (ensure_connected client)
        (λ x s. on_reply client (client.query q s.world) (execute_from client n q) s)
        ensure_connected-Leaves
        (λ x s.
          on_reply-Leaves (client.query q s.world) (execute_from client n q)
            (execute_from-Leaves n q) s)

  pub execute-Leaves : (q : Query) → Leaves kept (execute client q)
  unfolding execute
  execute-Leaves q = execute_from-Leaves 3 q

  connected :
      (r : Result (Unit {0}))
      → r ≡ ok tt
      → elim r [ ok x ↦ true | err e ↦ false | panic ↦ false ] ≡ true
  connected (ok x) h = refl
  connected (err e) h = cc
  connected panic h = cc

  connect_unless-conn :
      (c : Bool) (s t : Syncer W)
      → s.conn ≡ c
      → connect_unless client c s ≡ (ok tt, t)
      → t.conn ≡ true
  unfolding connect_unless
  connect_unless-conn true s t there h =
      ap (λ (x : Result (Unit {0}) × Syncer W). x.1.conn) (sym h) ∙ there
  connect_unless-conn false s t there h =
      ap (λ (x : Result (Unit {0}) × Syncer W). x.1.conn) (sym h)
      ∙ connected (client.connect s.world).0 (ap (λ (x : Result (Unit {0}) × Syncer W). x.0) h)

  ensure_connected-conn : (s t : Syncer W) → ensure_connected client s ≡ (ok tt, t) → t.conn ≡ true
  unfolding ensure_connected
  ensure_connected-conn s t h = connect_unless-conn s.conn s t refl h

  on_reply-conn :
      (p : Reply A × W) (again : Exec (Syncer W) A) (s t : Syncer W) (a : A)
      → s.conn ≡ true
      → ((u : Syncer W) → again u ≡ (ok a, t) → t.conn ≡ true)
      → on_reply client p again s ≡ (ok a, t)
      → t.conn ≡ true
  unfolding on_reply
  on_reply-conn (answered b, w) again s t a there f h =
      ap (λ (x : Result A × Syncer W). x.1.conn) (sym h) ∙ there
  on_reply-conn (refused e, w) again s t a there f h = cc
  on_reply-conn (broken, w) again s t a there f h = f (record s { conn = false; world = w }) h

  execute_from-conn :
      (n : ℕ) (q : Query) (s t : Syncer W) (a : A)
      → execute_from client n q s ≡ (ok a, t)
      → t.conn ≡ true
  unfolding execute_from
  execute_from-conn zero q s t a h = cc
  execute_from-conn (suc n) q s t a h =
      let (x, (u, (first, rest))) =
        first_returned (ensure_connected client s)
          (λ x s. on_reply client (client.query q s.world) (execute_from client n q) s) a t h in
      on_reply-conn (client.query q u.world) (execute_from client n q) u t a
        (ensure_connected-conn s u first) (λ v again. execute_from-conn n q v t a again) rest

  pub execute-conn :
      (q : Query) (s t : Syncer W) (a : A) → execute client q s ≡ (ok a, t) → t.conn ≡ true
  unfolding execute
  execute-conn q s t a h = execute_from-conn 3 q s t a h
