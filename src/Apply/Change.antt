-- ===== src/Apply/Change.antt =====
-- applyConfChange: the cluster in memory, the one in the store and raft's own move together.
use kingbus.Common.{
  ℕ, ◌≡◌, ◌≢◌, refl, ◌∙◌, true, false, Option, none, some, List, [], ◌∷◌, ◌++◌, ◌==◌, Bool-cases,
  inl, inr, Result, ok, err, panic, lookup,
}
use kingbus.Exec.{Exec, ◌>>=◌, pure}
use kingbus.Membership.{
  RaftCluster, RaftAttributes, Member, ClusterState, ConfChange, ConfChangeType, add_node,
  remove_node, update_node, other_change, Json, IsJson, validate_configuration_change, put_member,
  retire, is_set, check_change, save_changed, add_member, remove_member, update_raft_attributes,
}
use kingbus.Membership.Invariant.{
  IsSound, retire-IsSound, save_changed_lem, save_changed-IsConsistent,
}
use kingbus.Membership.Validated.{
  IsKnown, validated, validate-returns, added-IsSound, updated-IsSound,
}
use kingbus.Store.{raft_cluster}
use kingbus.Bolt.{Bolt, IsBolt, put_value}
use kingbus.MetaStore.{meta_store}
use kingbus.MetaStore.Writes.{meta_store-IsStore}
use kingbus.Apply.{
  KingbusServer, RaftNode, Effect, add_peer, update_peer, remove_peer, on_cluster, raft_change,
  save_conf_state, tell_peer, leave_peer, raft_none, change_cluster, after_check, apply_conf_change,
}
use kingbus.Apply.InStep.{
  Accepts, HasMember, IsInStep, Keeps, decode_change_member_lem, retire-keeps, Keeps-bind,
  Keeps-raft_change, Keeps-save_conf_state, Keeps-tell_peer,
}

module _ {D G R : Type 0} (b : Bolt D) (js : Json) (node : RaftNode R) (Gone : ℕ → Type 0)
    (laws : IsBolt b) (is_json : IsJson js) (accepts : Accepts b) where
  -- The write of a sound cluster, as the operations of the membership make it.
  Keeps-save :
      (m : Exec (ClusterState D) (Unit {0})) (d : RaftCluster) (s : KingbusServer D G R)
      → ((t : D)
          → (meta_store b).set raft_cluster (js.encode_cluster d) s.store ≡ some t
          → m (record { cluster = s.cluster; store = s.store })
            ≡ (ok tt, record { cluster = d; store = t }))
      → IsSound d
      → ((i : ℕ) → Gone i → is_set i d.removed_map ≡ true)
      → Keeps b js node Gone (on_cluster m) s
  unfolding meta_store
  Keeps-save m d s run sound gone =
      let (e, u) = accepts (put_value raft_cluster (js.encode_cluster d) ∷ []) s.store in
      (
        tt,
        (
          record s { cluster = d; store = e },
          (
            rw (run e u) refl,
            (
              save_changed-IsConsistent (meta_store b) js (meta_store-IsStore b laws) is_json d
                  (record { cluster = s.cluster; store = s.store }) e u sound,
              gone,
            ),
          ),
        ),
      )

  saved :
      (d : RaftCluster) (s : KingbusServer D G R) (t : D)
      → (meta_store b).set raft_cluster (js.encode_cluster d) s.store ≡ some t
      → save_changed (meta_store b) js d (record { cluster = s.cluster; store = s.store })
        ≡ (ok tt, record { cluster = d; store = t })
  saved d s t u =
      save_changed_lem (meta_store b) js (meta_store-IsStore b laws) is_json d
        (record { cluster = s.cluster; store = s.store }) t u

  updated :
      (i : ℕ) (attr : RaftAttributes) (n : Member) (s : KingbusServer D G R)
      → lookup i s.cluster.members_map ≡ some n
      → update_raft_attributes
          (meta_store b)
          js
          i
          attr
          (record { cluster = s.cluster; store = s.store })
        ≡ save_changed
            (meta_store b)
            js
            (put_member i (record n { raft_attributes = attr }) s.cluster)
            (record { cluster = s.cluster; store = s.store })
  unfolding update_raft_attributes
  updated i attr n s found = rw found refl

  Keeps-told :
      (i : ℕ) (e : Effect) (s : KingbusServer D G R)
      → IsInStep b js node Gone s
      → Keeps b js node Gone (tell_peer b js node i e >>= λ _. pure false) s
  Keeps-told i e s k =
      Keeps-bind b js node Gone (tell_peer b js node i e) (λ _. pure false) s
        (Keeps-tell_peer b js node Gone i e s k) λ _ t j. (false, (t, (refl, j)))

  Keeps-leave_peer :
      (i : ℕ) (s : KingbusServer D G R)
      → IsInStep b js node Gone s
      → Keeps b js node Gone (leave_peer b js node i) s
  unfolding leave_peer
  Keeps-leave_peer i s k = elim (Bool-cases (i == s.id)) [
    | inl self ↦ (true, (s, (rw self refl, k)))
    | inr other ↦
        (false, (record s { effects = s.effects ++ remove_peer i ∷ [] }, (rw other refl, k)))
  ]

  Keeps-change_cluster :
      (c : ConfChange) (m : Member) (s : KingbusServer D G R) (k : ConfChangeType)
      (f : Option Member)
      → IsInStep b js node Gone s
      → IsKnown k
      → HasMember b js c m
      → is_set c.node_id s.cluster.removed_map ≡ false
      → lookup c.node_id s.cluster.members_map ≡ f
      → check_change (meta_store b) js k f c.node_id c.context s.cluster.members_map ≡ ok tt
      → Keeps b js node Gone (change_cluster b js node c k) s
  unfolding change_cluster add_member remove_member check_change
  Keeps-change_cluster c m s add_node f i known (d, e) r found checked =
      let to = put_member m.id m s.cluster in
      let sound =
        added-IsSound (meta_store b) js f m.id m s.cluster c.context i.0.sound (rw e r)
          (rw e checked) d refl in
      rw (decode_change_member_lem b js c m (d, e)) (
        Keeps-bind b js node Gone (on_cluster (add_member (meta_store b) js m))
          (λ _. tell_peer b js node m.id (add_peer m.id m.raft_attributes.peer_urls) >>= λ _.
            pure false)
          s (Keeps-save (add_member (meta_store b) js m) to s (λ t u. saved to s t u) sound i.1)
          (λ _ t k. Keeps-told m.id (add_peer m.id m.raft_attributes.peer_urls) t k))
  Keeps-change_cluster c m s remove_node f i known has r found checked =
      let to = retire c.node_id s.cluster in
      Keeps-bind b js node Gone (on_cluster (remove_member (meta_store b) js c.node_id))
        (λ _. leave_peer b js node c.node_id) s
        (Keeps-save (remove_member (meta_store b) js c.node_id) to s (λ t u. saved to s t u)
          (retire-IsSound c.node_id s.cluster i.0.sound)
          (λ j g. retire-keeps c.node_id j s.cluster (i.1 j g)))
        (λ _ t k. Keeps-leave_peer c.node_id t k)
  Keeps-change_cluster c m s update_node none i known has r found checked = cc
  Keeps-change_cluster c m s update_node (some n) i known (d, e) r found checked =
      let to = put_member m.id (record n { raft_attributes = m.raft_attributes }) s.cluster in
      let sound =
        updated-IsSound (meta_store b) js m.id m n s.cluster c.context i.0.sound (rw e r)
          (rw e found) (rw e checked) d in
      rw (decode_change_member_lem b js c m (d, e)) (
        Keeps-bind b js node Gone
          (on_cluster (update_raft_attributes (meta_store b) js m.id m.raft_attributes))
          (λ _. tell_peer b js node m.id (update_peer m.id m.raft_attributes.peer_urls) >>= λ _.
            pure false)
          s
          (Keeps-save (update_raft_attributes (meta_store b) js m.id m.raft_attributes) to s
            (λ t u. updated m.id m.raft_attributes n s (rw e found) ∙ saved to s t u) sound i.1)
          (λ _ t k. Keeps-told m.id (update_peer m.id m.raft_attributes.peer_urls) t k))
  Keeps-change_cluster c m s (other_change n) f i known (d, e) r found checked = absurd known

  Keeps-saved :
      {A : Type 0} (v : Option (List ℕ)) (a : A) (s : KingbusServer D G R)
      → IsInStep b js node Gone s
      → Keeps b js node Gone (save_conf_state b js node v >>= λ _. pure a) s
  Keeps-saved v a s k =
      Keeps-bind b js node Gone (save_conf_state b js node v) (λ _. pure a) s
        (Keeps-save_conf_state b js node Gone v s laws accepts k) λ _ t j. (a, (t, (refl, j)))

  Keeps-after_check :
      (c : ConfChange) (m : Member) (s : KingbusServer D G R) (r : Result (Unit {0}))
      → IsInStep b js node Gone s
      → IsKnown c.change
      → HasMember b js c m
      → validate_configuration_change (meta_store b) js c s.store ≡ r
      → r ≢ panic
      → Keeps b js node Gone (after_check b js node c r) s
  unfolding after_check raft_change
  Keeps-after_check c m s panic i known has v returns = absurd (returns refl)
  Keeps-after_check c m s (err e) i known has v returns =
      Keeps-bind b js node Gone (raft_change b js node (record c { node_id = raft_none }))
        (λ state. save_conf_state b js node state >>= λ _. pure (false, some e)) s
        (Keeps-raft_change b js node Gone (record c { node_id = raft_none }) s i)
        (λ state t k. Keeps-saved state (false, some e) t k)
  Keeps-after_check c m s (ok tt) i known has v returns =
      let (kept, checked) =
        validated (meta_store b) js c (record { cluster = s.cluster; store = s.store }) i.0.stored
          v in
      let (raft, state) = node.apply_conf_change c s.raft in
      let t = record s { raft = raft } in
      let found = lookup c.node_id s.cluster.members_map in
      Keeps-bind b js node Gone (change_cluster b js node c c.change)
        (λ removed_self. save_conf_state b js node state >>= λ _. pure (removed_self, none)) t
        (Keeps-change_cluster c m t c.change found i known has kept refl checked)
        (λ removed_self u k. Keeps-saved state (removed_self, none) u k)

  pub apply_conf_change-IsInStep :
      (c : ConfChange) (m : Member) (s : KingbusServer D G R)
      → IsInStep b js node Gone s
      → IsKnown c.change
      → HasMember b js c m
      → Keeps b js node Gone (apply_conf_change b js node c) s
  unfolding apply_conf_change
  apply_conf_change-IsInStep c m s i known has =
      Keeps-after_check c m s (validate_configuration_change (meta_store b) js c s.store) i known
        has refl
        (validate-returns (meta_store b) js c (record { cluster = s.cluster; store = s.store }) m
          i.0.stored known has.0)
