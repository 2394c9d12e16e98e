-- ===== src/Apply/Removed.antt =====
-- applyConfChange on an id that was removed from the cluster: it never comes back.
use mathlib.Core.Path.{subst}
use kingbus.Common.{
  ◌≡◌, refl, sym, ap, ◌∙◌, ◌||◌, arith, if◌then◌else◌, lookup-erase, Bool, true, false, Option,
  none, some, List, [], ◌∷◌, ◌++◌, ◌==◌, Bool-cases, inl, inr, ℕ, Error, id_removed, ok, err,
  lookup,
}
use kingbus.Exec.{◌>>=◌, pure}
use kingbus.Membership.{
  Member, RaftCluster, ConfChange, remove_node, Json, IsJson, load, validate_configuration_change,
  members_from_store, loaded_or_empty, check_change, is_set, retire, remove_member,
}
use kingbus.Membership.Invariant.{save_changed_lem}
use kingbus.Store.{raft_cluster, conf_state}
use kingbus.Bolt.{Bolt, IsBolt, put_value}
use kingbus.MetaStore.{meta_store, set_value}
use kingbus.MetaStore.Gtid.{fatal}
use kingbus.MetaStore.Writes.{meta_store-IsStore, transact_lem}
use kingbus.Apply.{
  KingbusServer, RaftNode, remove_peer, raft_change, save_conf_state, raft_none, leave_peer,
  change_cluster, after_check, apply_conf_change,
}
use kingbus.Apply.InStep.{Accepts}

module _ {D G R : Type 0} (b : Bolt D) (js : Json) (node : RaftNode R) (accepts : Accepts b) where
  validate-removed :
      (c : ConfChange) (s : KingbusServer D G R)
      → load (meta_store b) js s.store ≡ ok s.cluster
      → is_set c.node_id s.cluster.removed_map ≡ true
      → validate_configuration_change (meta_store b) js c s.store ≡ err id_removed
  unfolding validate_configuration_change members_from_store loaded_or_empty
  validate-removed c s l gone = rw (l, gone) refl

  -- The end of a change, whose result is already known.
  settled :
      {A : Type 0} (v : Option (List ℕ)) (a : A) (s : KingbusServer D G R)
      → (t : KingbusServer D G R) × ((◌>>=◌ {B = A} (save_conf_state b js node v) (λ _. pure a) s
            ≡ (ok a, t))
          × (t.cluster ≡ s.cluster))
  unfolding save_conf_state set_value fatal
  settled none a s = (s, (refl, refl))
  settled (some v) a s =
      let (d, u) = accepts (put_value conf_state v ∷ []) s.store in
      let run =
        transact_lem b (λ d. ok (put_value conf_state v ∷ [])) (put_value conf_state v ∷ []) s.store
          d refl u in
      (record s { store = d }, (rw run refl, refl))

  pub apply_conf_change-removed :
      (c : ConfChange) (s : KingbusServer D G R)
      → load (meta_store b) js s.store ≡ ok s.cluster
      → is_set c.node_id s.cluster.removed_map ≡ true
      → (t : KingbusServer D G R) × ((apply_conf_change b js node c s
            ≡ (ok (false, some id_removed), t))
          × (t.cluster ≡ s.cluster))
  unfolding apply_conf_change after_check raft_change
  apply_conf_change-removed c s l gone =
      let (raft, state) = node.apply_conf_change (record c { node_id = raft_none }) s.raft in
      rw (validate-removed c s l gone) (
        settled {A = Bool × Option Error} state (false, some id_removed) (record s { raft = raft }))

  -- Where the removed member is this server is told, and another is told to the transport.
  left :
      (i : ℕ) (s : KingbusServer D G R)
      → (t : KingbusServer D G R) × ((leave_peer b js node i s ≡ (ok (i == s.id), t))
          × (t.cluster ≡ s.cluster))
  unfolding leave_peer
  left i s = elim (Bool-cases (i == s.id)) [
    | inl self ↦ (s, (rw self refl, refl))
    | inr other ↦ (record s { effects = s.effects ++ remove_peer i ∷ [] }, (rw other refl, refl))
  ]

  validate-remove :
      (c : ConfChange) (m : Member) (s : KingbusServer D G R)
      → load (meta_store b) js s.store ≡ ok s.cluster
      → c.change ≡ remove_node
      → is_set c.node_id s.cluster.removed_map ≡ false
      → lookup c.node_id s.cluster.members_map ≡ some m
      → validate_configuration_change (meta_store b) js c s.store ≡ ok tt
  unfolding validate_configuration_change members_from_store loaded_or_empty check_change
  validate-remove c m s l k kept found = rw (l, kept, k, found) refl

  remove_cluster :
      (c : ConfChange) (s : KingbusServer D G R)
      → IsBolt b
      → IsJson js
      → (t : KingbusServer D G R) × ((change_cluster b js node c remove_node s
            ≡ (ok (c.node_id == s.id), t))
          × (t.cluster ≡ retire c.node_id s.cluster))
  unfolding change_cluster remove_member meta_store
  remove_cluster c s laws is_json =
      let to = retire c.node_id s.cluster in
      let (d, u) = accepts (put_value raft_cluster (js.encode_cluster to) ∷ []) s.store in
      let run =
        save_changed_lem (meta_store b) js (meta_store-IsStore b laws) is_json to
          (record { cluster = s.cluster; store = s.store }) d u in
      let (t, (gone, same)) = left c.node_id (record s { cluster = to; store = d }) in
      (t, (rw run gone, same))

  after_check-removes :
      (c : ConfChange) (s : KingbusServer D G R)
      → IsBolt b
      → IsJson js
      → c.change ≡ remove_node
      → (t : KingbusServer D G R) × ((after_check b js node c (ok tt) s
            ≡ (ok (c.node_id == s.id, none), t))
          × (t.cluster ≡ retire c.node_id s.cluster))
  unfolding after_check raft_change
  after_check-removes c s laws is_json k =
      let (raft, state) = node.apply_conf_change c s.raft in
      let u = record s { raft = raft } in
      let (t, (gone, same)) =
        subst
          (λ q.
            (t : KingbusServer D G R) × ((change_cluster b js node c q u
                ≡ (ok (c.node_id == s.id), t))
              × (t.cluster ≡ retire c.node_id s.cluster)))
          (sym k) (remove_cluster c u laws is_json) in
      let (e, (saved, still)) =
        settled {A = Bool × Option Error} state (c.node_id == s.id, none) t in
      (e, (rw gone saved, still ∙ same))

  retired :
      (c : ConfChange) (m : Member) (s : KingbusServer D G R)
      → IsBolt b
      → IsJson js
      → load (meta_store b) js s.store ≡ ok s.cluster
      → c.change ≡ remove_node
      → is_set c.node_id s.cluster.removed_map ≡ false
      → lookup c.node_id s.cluster.members_map ≡ some m
      → (t : KingbusServer D G R) × ((apply_conf_change b js node c s
            ≡ (ok (c.node_id == s.id, none), t))
          × (t.cluster ≡ retire c.node_id s.cluster))
  unfolding apply_conf_change
  retired c m s laws is_json l k kept found =
      rw (validate-remove c m s l k kept found) (after_check-removes c s laws is_json k)

  -- The removal of a member whose id was not removed before returns whether it is this server, and
  -- no error. Afterwards the id has no member and is removed, and for any other id the members and
  -- the removed ids are as before. The stored cluster is the one in memory, and no transaction fails.
  pub apply_conf_change-removes :
      (c : ConfChange) (m : Member) (s : KingbusServer D G R) (i : ℕ)
      → IsBolt b
      → IsJson js
      → load (meta_store b) js s.store ≡ ok s.cluster
      → c.change ≡ remove_node
      → is_set c.node_id s.cluster.removed_map ≡ false
      → lookup c.node_id s.cluster.members_map ≡ some m
      → (t : KingbusServer D G R) × ((apply_conf_change b js node c s
            ≡ (ok (c.node_id == s.id, none), t))
          × ((lookup i t.cluster.members_map
                ≡ (if c.node_id == i then none else lookup i s.cluster.members_map))
              × (is_set i t.cluster.removed_map
                  ≡ (c.node_id == i || is_set i s.cluster.removed_map))))
  unfolding retire
  apply_conf_change-removes c m s i laws is_json l k kept found =
      let (t, (run, same)) = retired c m s laws is_json l k kept found in
      (
        t,
        (
          run,
          (
            ap (λ (q : RaftCluster). lookup i q.members_map) same
                ∙ lookup-erase i c.node_id s.cluster.members_map,
            ap (λ (q : RaftCluster). is_set i q.removed_map) same
                ∙ ground (arith, lookup-erase i c.node_id s.cluster.removed_map),
          ),
        ),
      )
