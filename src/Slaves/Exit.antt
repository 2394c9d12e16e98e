-- ===== src/Slaves/Exit.antt =====
-- A slave that comes back while its old dump still runs.
use mathlib.Core.Path.{subst}
use kingbus.Common.{
  sym, ℕ, ◌≡◌, ◌≢◌, refl, ap, ◌∙◌, false, none, some, List, [], ◌∷◌, ◌++◌, length, ◌==◌, ==_ne,
  bytes_eq, bytes_eq_refl, Bool-cases, inl, inr, Result, ok,
}
use kingbus.Dump.{find_slave, without_slave, register_slave, unregister_slave}
use kingbus.Slaves.{
  Slave, Registry, unregister, kill_zombie_dump_threads, register_parsed, registered,
  handle_register_slave, end_dump,
}
use kingbus.Slaves.Packet.{IsSlave, register_packet, parse-register_packet}

find-without :
    (uuid : List ℕ) (ss : List (List ℕ × Slave)) → find_slave uuid (without_slave uuid ss) ≡ none
unfolding find_slave without_slave
find-without uuid [] = refl
find-without uuid ((u, s) ∷ ss) = elim (Bool-cases (bytes_eq u uuid)) [
  | inl same ↦ rw same (find-without uuid ss)
  | inr other ↦ rw (other, other) (find-without uuid ss)
]

-- What is left where a slave is unregistered.
abbrev left : List ℕ → Slave → Registry → Registry
left uuid s r = record { slaves = without_slave uuid r.slaves; closed = r.closed ++ s.conn ∷ [] }

unregister-found :
    (uuid : List ℕ) (s : Slave) (r : Registry)
    → find_slave uuid r.slaves ≡ some s
    → unregister uuid r ≡ left uuid s r
unfolding unregister unregister_slave
unregister-found uuid s r found = rw (found, unregister) refl

module _ (r : Registry) (old new : Slave) where
  -- What the registration of the new connection leaves.
  abbrev pub taken_over : Registry
  taken_over = record (left new.uuid old r) {
    slaves = (new.uuid, new) ∷ without_slave new.uuid (without_slave new.uuid r.slaves);
  }

  killed :
      find_slave new.uuid r.slaves ≡ some old
      → old.conn ≢ new.conn
      → (length new.uuid == 0) ≡ false
      → kill_zombie_dump_threads new.conn (some new.uuid) r ≡ left new.uuid old r
  unfolding kill_zombie_dump_threads
  killed found apart named =
      rw (named, found, kill_zombie_dump_threads, ==_ne old.conn new.conn apart)
        (unregister-found new.uuid old r found)

  registered_again :
      (length new.uuid == 0) ≡ false
      → registered new
          (register_slave new.uuid new (left new.uuid old r).slaves)
          (left new.uuid old r)
        ≡ (ok tt, taken_over)
  unfolding register_slave
  registered_again named = rw named refl

  pub handle_register_slave-again :
      find_slave new.uuid r.slaves ≡ some old
      → old.conn ≢ new.conn
      → (length new.uuid == 0) ≡ false
      → IsSlave new
      → handle_register_slave new.conn (some new.uuid) (register_packet new) r ≡ (ok tt, taken_over)
  unfolding handle_register_slave register_parsed
  handle_register_slave-again found apart named fits =
      ap (λ p. register_parsed new.conn (some new.uuid) p r) (parse-register_packet new fits)
      ∙ (ap (λ (q : Registry). registered new (register_slave new.uuid new q.slaves) q)
            (killed found apart named)
          ∙ registered_again named)

  -- Where a slave with a uuid is known on an old connection and registers again on a new one, with a
  -- packet whose numbers fit, it is known on the new one; and when the dump on the old connection
  -- ends after that, the new connection is closed and the slave is not known any more.
  pub end_dump-closes_new :
      find_slave new.uuid r.slaves ≡ some old
      → old.conn ≢ new.conn
      → (length new.uuid == 0) ≡ false
      → IsSlave new
      → let q = (handle_register_slave new.conn (some new.uuid) (register_packet new) r).1 in
        (find_slave new.uuid q.slaves ≡ some new)
        × (((end_dump (some new.uuid) q).1.closed ≡ q.closed ++ new.conn ∷ [])
            × (find_slave new.uuid (end_dump (some new.uuid) q).1.slaves ≡ none))
  unfolding end_dump
  end_dump-closes_new found apart named fits =
      let e =
        ap (λ (x : Result (Unit {0}) × Registry). x.1)
          (handle_register_slave-again found apart named fits) in
      let here : find_slave new.uuid taken_over.slaves ≡ some new =
        unfold find_slave in rw (bytes_eq_refl new.uuid) refl in
      let gone = unregister-found new.uuid new taken_over here in
      subst
        (λ (q : Registry).
          (find_slave new.uuid q.slaves ≡ some new)
          × (((unregister new.uuid q).closed ≡ q.closed ++ new.conn ∷ [])
              × (find_slave new.uuid (unregister new.uuid q).slaves ≡ none)))
        (sym e)
        (
          here,
          (
            ap (λ (q : Registry). q.closed) gone,
            ap (λ (q : Registry). find_slave new.uuid q.slaves) gone
                ∙ find-without new.uuid taken_over.slaves,
          ),
        )
