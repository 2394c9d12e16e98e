-- ===== src/Apply/InStep.antt =====
-- Runs that keep the cluster in memory, and the one in the store, in step; and the steps of
-- applyConfChange that leave the cluster alone.
use kingbus.Common.{
  ℕ, ◌≡◌, refl, ap, ◌∙◌, true, Option, none, some, List, [], ◌∷◌, ◌++◌, arith, ◌==◌, Bool-cases,
  inl, inr, ok, lookup-insert, ==_refl,
}
use kingbus.Exec.{Exec, ◌>>=◌}
use kingbus.Membership.{RaftCluster, Member, ConfChange, Json, load, loaded, retire, is_set}
use kingbus.Membership.Invariant.{IsConsistent}
use kingbus.Store.{raft_cluster, conf_state}
use kingbus.Bolt.{Bolt, IsBolt, Write, put_value}
use kingbus.MetaStore.{meta_store, get_value, set_value}
use kingbus.MetaStore.Gtid.{fatal}
use kingbus.MetaStore.Writes.{transact_lem, value-put_ne}
use kingbus.Apply.{
  KingbusServer, RaftNode, Effect, raft_change, save_conf_state, decode_change_member, tell_peer,
}

-- No transaction fails.
abbrev pub Accepts : {D : Type 0} → Bolt D → Type 0
Accepts {D} b = (ws : List Write) (d : D) → (e : D) × (b.update ws d ≡ some e)

module _ {D : Type 0} (b : Bolt D) (js : Json) where
  pub load-conf_state :
      (v : List ℕ) (d e : D)
      → IsBolt b
      → b.update (put_value conf_state v ∷ []) d ≡ some e
      → load (meta_store b) js e ≡ load (meta_store b) js d
  unfolding load meta_store get_value
  load-conf_state v d e laws u =
      ap (loaded (meta_store b) js)
        (value-put_ne b raft_cluster conf_state v [] d e laws (λ p. cc) u)

  -- A member of the change's context, for the changes that have one.
  abbrev pub HasMember : ConfChange → Member → Type 0
  HasMember c m = (js.decode_member c.context ≡ some m) × (m.id ≡ c.node_id)

  pub decode_change_member_lem :
      (c : ConfChange) (m : Member) → HasMember c m → decode_change_member js c ≡ ok m
  unfolding decode_change_member
  decode_change_member_lem c m (d, e) = rw (d, e, ==_refl c.node_id) refl

pub retire-keeps :
    (i j : ℕ) (c : RaftCluster)
    → is_set j c.removed_map ≡ true
    → is_set j (retire i c).removed_map ≡ true
unfolding retire
retire-keeps i j c h = ground (arith, lookup-insert j i true c.removed_map, h)

-- `Gone` are ids that were removed before.
module _ {D G R : Type 0} (b : Bolt D) (js : Json) (node : RaftNode R) (Gone : ℕ → Type 0) where
  -- The cluster of the server is sound, and the one that its store has; what is gone is retired.
  abbrev pub IsInStep : KingbusServer D G R → Type 0
  IsInStep s =
      IsConsistent (meta_store b) js (record { cluster = s.cluster; store = s.store })
      × ((i : ℕ) → Gone i → is_set i s.cluster.removed_map ≡ true)

  -- A run returns, and leaves the cluster in step.
  abbrev pub Keeps : {A : Type 0} → Exec (KingbusServer D G R) A → KingbusServer D G R → Type 0
  Keeps {A} m s = (a : A) × ((t : KingbusServer D G R) × ((m s ≡ (ok a, t)) × IsInStep t))

  pub Keeps-bind :
      {A B : Type 0} (m : Exec (KingbusServer D G R) A) (f : A → Exec (KingbusServer D G R) B)
      (s : KingbusServer D G R)
      → Keeps m s
      → ((a : A) (t : KingbusServer D G R) → IsInStep t → Keeps (f a) t)
      → Keeps (m >>= f) s
  Keeps-bind m f s (a, (t, (e, i))) rest =
      let (r, (u, (h, j))) = rest a t i in (r, (u, (rw e h, j)))

  pub Keeps-raft_change :
      (c : ConfChange) (s : KingbusServer D G R) → IsInStep s → Keeps (raft_change b js node c) s
  unfolding raft_change
  Keeps-raft_change c s i = (
    (node.apply_conf_change c s.raft).1,
    (record s { raft = (node.apply_conf_change c s.raft).0 }, (refl, i)),
  )

  pub Keeps-save_conf_state :
      (v : Option (List ℕ)) (s : KingbusServer D G R)
      → IsBolt b
      → Accepts b
      → IsInStep s
      → Keeps (save_conf_state b js node v) s
  unfolding save_conf_state set_value fatal
  Keeps-save_conf_state none s laws accepts i = (tt, (s, (refl, i)))
  Keeps-save_conf_state (some v) s laws accepts i =
      let (e, u) = accepts (put_value conf_state v ∷ []) s.store in
      let run =
        transact_lem b (λ d. ok (put_value conf_state v ∷ [])) (put_value conf_state v ∷ []) s.store
          e refl u in
      (
        tt,
        (
          record s { store = e },
          (
            rw run refl,
            (
              record {
                stored = load-conf_state b js v s.store e laws u ∙ i.0.stored;
                sound = i.0.sound;
              },
              i.1,
            ),
          ),
        ),
      )

  pub Keeps-tell_peer :
      (i : ℕ) (e : Effect) (s : KingbusServer D G R)
      → IsInStep s
      → Keeps (tell_peer b js node i e) s
  unfolding tell_peer
  Keeps-tell_peer i e s k = elim (Bool-cases (i == s.id)) [
    | inl self ↦ (tt, (s, (rw self refl, k)))
    | inr other ↦ (tt, (record s { effects = s.effects ++ e ∷ [] }, (rw other refl, k)))
  ]
