-- ===== src/Membership/Invariant.antt =====
-- The well-formedness of the cluster: what is kept in memory is what is in the store, a removed id
-- is no member, and a peer URL belongs to one member.
use kingbus.Common.{
  ℕ, ◌≡◌, refl, true, false, none, some, List, arith, lookup, lookup-insert, lookup-erase, ok,
}
use kingbus.Store.{Store, IsStore, raft_cluster}
use kingbus.Membership.{
  Member, RaftCluster, ClusterState, Json, IsJson, is_set, has_url, load, put_member, retire,
  save_changed, save_to_storage,
}

-- The key of a member is its id.
abbrev pub Keyed : List (ℕ × Member) → Type 0
Keyed ms = (i : ℕ) (m : Member) → lookup i ms ≡ some m → m.id ≡ i

-- Two members with a common peer URL are the same.
abbrev pub OneOwner : List (ℕ × Member) → Type 0
OneOwner ms =
    (i j : ℕ) (m n : Member) (u : List ℕ)
    → lookup i ms ≡ some m
    → lookup j ms ≡ some n
    → has_url m.raft_attributes.peer_urls u ≡ true
    → has_url n.raft_attributes.peer_urls u ≡ true
    → i ≡ j

-- What holds of the maps alone.
pub record IsSound (c : RaftCluster) : Type 0 where
  pub keyed : Keyed c.members_map
  pub retired : (i : ℕ) → is_set i c.removed_map ≡ true → lookup i c.members_map ≡ none
  pub one_owner : OneOwner c.members_map

-- A member whose URLs belong to no other may take its place in the map.
pub put_member-IsSound :
    (i : ℕ) (m : Member) (c : RaftCluster)
    → m.id ≡ i
    → is_set i c.removed_map ≡ false
    → ((j : ℕ) (n : Member) (u : List ℕ)
        → lookup j c.members_map ≡ some n
        → has_url m.raft_attributes.peer_urls u ≡ true
        → has_url n.raft_attributes.peer_urls u ≡ true
        → i ≡ j)
    → IsSound c
    → IsSound (put_member i m c)
unfolding put_member
put_member-IsSound i m c e r free s = record {
  keyed = λ j n f. ground (arith, lookup-insert j i m c.members_map, s.keyed j n);
  retired = λ j f. ground (arith, lookup-insert j i m c.members_map, s.retired j f);
  one_owner = λ a b p q u fa fb ha hb. ground (
    arith,
    lookup-insert a i m c.members_map,
    lookup-insert b i m c.members_map,
    free a p u,
    free b q u,
    s.one_owner a b p q u,
  );
}

pub retire-IsSound : (i : ℕ) (c : RaftCluster) → IsSound c → IsSound (retire i c)
unfolding retire
retire-IsSound i c s = record {
  keyed = λ j n f. ground (arith, lookup-erase j i c.members_map, s.keyed j n);
  retired = λ j f.
      ground
        (arith, lookup-erase j i c.members_map, lookup-insert j i true c.removed_map, s.retired j);
  one_owner = λ a b p q u fa fb ha hb. ground (
    arith,
    lookup-erase a i c.members_map,
    lookup-erase b i c.members_map,
    s.one_owner a b p q u,
  );
}

module _ {S : Type 0} (st : Store S) (js : Json) where
  -- The cluster in memory is the one in the store, and it is sound.
  pub record IsConsistent (c : ClusterState S) : Type 0 where
    pub stored : load st js c.store ≡ ok c.cluster
    pub sound : IsSound c.cluster

  module _ (is_store : IsStore st) (is_json : IsJson js) where
    save-load :
        (c : RaftCluster) (s t : S)
        → st.set raft_cluster (js.encode_cluster c) s ≡ some t
        → load st js t ≡ ok c
    unfolding load
    save-load c s t h =
        rw (is_store.get-set raft_cluster (js.encode_cluster c) s t h, is_json.cluster_round_trip c)
          refl

    pub save_changed_lem :
        (d : RaftCluster) (c : ClusterState S) (t : S)
        → st.set raft_cluster (js.encode_cluster d) c.store ≡ some t
        → save_changed st js d c ≡ (ok tt, record { cluster = d; store = t })
    unfolding save_changed save_to_storage
    save_changed_lem d c t h = rw h refl

  -- A change of the maps that is saved and keeps them sound leaves a consistent cluster.
  pub save_changed-IsConsistent :
      IsStore st
      → IsJson js
      → (d : RaftCluster) (c : ClusterState S) (t : S)
      → st.set raft_cluster (js.encode_cluster d) c.store ≡ some t
      → IsSound d
      → IsConsistent (record { cluster = d; store = t })
  save_changed-IsConsistent is_store is_json d c t h s = record {
    stored = save-load is_store is_json d c.store t h;
    sound = s;
  }
