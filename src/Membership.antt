-- ===== src/Membership.antt =====
-- raft/membership: the members of the raft cluster, kept in memory and in the store.
pub mod Invariant
pub mod Quorum
pub mod Validated
mod Tests
use kingbus.Common.{
  ℕ, ◌+◌, ◌/◌, ◌≡◌, Bool, true, false, not, ◌&&◌, ◌||◌, Option, none, some, List, [], ◌∷◌, ◌++◌,
  ltb, ◌==◌, if◌then◌else◌, lookup, insert, erase, bytes_eq, length, Error, key_not_found,
  id_removed, id_exists, id_not_found, peer_url_exists, Result, ok, err, panic,
}
use kingbus.Common
use kingbus.Exec.{Exec, ◌>>=◌, ◌>>◌, pure, raise, lift, get, put, must}
use kingbus.Store.{Store, raft_cluster}

pub record RaftAttributes : Type 0 where
  pub peer_urls : List (List ℕ)

pub record Attributes : Type 0 where
  pub name : List ℕ
  pub admin_urls : List (List ℕ)

pub record Member : Type 0 where
  pub id : ℕ  -- types.ID, a uint64
  pub raft_attributes : RaftAttributes
  pub attributes : Attributes

unfoldable pub is_started : Member → Bool
is_started m = not (length m.attributes.name == 0)

-- MembersMap and RemovedMap; the order of an association list stands for none.
pub record RaftCluster : Type 0 where
  pub id : ℕ
  pub members_map : List (ℕ × Member)
  pub removed_map : List (ℕ × Bool)

unfoldable pub new_cluster : RaftCluster
new_cluster = record { id = 0; members_map = []; removed_map = [] }

unfoldable pub members_of : List Member → List (ℕ × Member)
members_of [] = []
members_of (m ∷ ms) = insert m.id m (members_of ms)

-- The loop of NewClusterFromMembers, from its last round: a later member wins.
unfoldable pub new_cluster_from_members : ℕ → List Member → RaftCluster
unfolding new_cluster members_of
new_cluster_from_members id ms = record new_cluster { id = id; members_map = members_of ms }

-- A key that a Go map of flags does not have reads as false.
abbrev pub is_set : ℕ → List (ℕ × Bool) → Bool
is_set i m = elim (lookup i m) [ none ↦ false | some b ↦ b ]

unfoldable pub is_id_removed : RaftCluster → ℕ → Bool
is_id_removed c i = is_set i c.removed_map

-- raftpb.ConfChange
pub data ConfChangeType : Type 0 where
  add_node remove_node update_node : ConfChangeType
  other_change : ℕ → ConfChangeType

pub record ConfChange : Type 0 where
  pub id : ℕ
  pub change : ConfChangeType
  pub node_id : ℕ
  pub context : List ℕ

-- encoding/json on clusters and members.
pub record Json : Type 0 where
  pub encode_cluster : RaftCluster → List ℕ
  pub decode_cluster : List ℕ → Option RaftCluster
  pub encode_member : Member → List ℕ
  pub decode_member : List ℕ → Option Member

pub record IsJson (js : Json) : Type 0 where
  pub cluster_round_trip : (c : RaftCluster) → js.decode_cluster (js.encode_cluster c) ≡ some c
  pub member_round_trip : (m : Member) → js.decode_member (js.encode_member m) ≡ some m

unfoldable pub has_url : List (List ℕ) → List ℕ → Bool
has_url [] u = false
has_url (v ∷ urls) u = bytes_eq v u || has_url urls u

-- The peer URLs of all members but those that a test leaves out.
unfoldable pub urls_of : (Member → Bool) → List (ℕ × Member) → List (List ℕ)
urls_of skip [] = []
urls_of skip ((i, m) ∷ ms) =
    let rest = urls_of skip ms in if skip m then rest else m.raft_attributes.peer_urls ++ rest

unfoldable pub any_taken : List (List ℕ) → List (List ℕ) → Bool
unfolding has_url
any_taken urls [] = false
any_taken urls (u ∷ us) = has_url urls u || any_taken urls us

-- The cluster that a component holds, with the store that it points to.
pub record ClusterState (S : Type 0) : Type 0 where
  pub cluster : RaftCluster
  pub store : S

-- A member under its id; a member that is there is changed in place, since the map holds pointers.
unfoldable pub put_member : ℕ → Member → RaftCluster → RaftCluster
put_member i m c = record c { members_map = insert i m c.members_map }

unfoldable pub retire : ℕ → RaftCluster → RaftCluster
retire i c = record c {
  members_map = erase i c.members_map;
  removed_map = insert i true c.removed_map;
}

module _ {S : Type 0} (st : Store S) (js : Json) where
  -- GetRaftClusterFromStorage, after the value of its key is read.
  unfoldable pub loaded : Result (Option (List ℕ)) → Result RaftCluster
  loaded (ok (some v)) = must (js.decode_cluster v)
  loaded (ok none) = err key_not_found
  loaded _ = panic

  unfoldable pub load : S → Result RaftCluster
  unfolding loaded
  load s = loaded (st.get s raft_cluster)

  unfoldable pub save_to_storage : Exec (ClusterState S) (Unit {0})
  save_to_storage = do
    c ← get
    t ← lift (must (st.set raft_cluster (js.encode_cluster c.cluster) c.store))
    put (record c { store = t })

  unfoldable pub loaded_or_empty : Result RaftCluster → Result (List (ℕ × Member) × List (ℕ × Bool))
  loaded_or_empty (ok c) = ok (c.members_map, c.removed_map)
  loaded_or_empty (err key_not_found) = ok ([], [])
  loaded_or_empty _ = panic

  unfoldable pub members_from_store : S → Result (List (ℕ × Member) × List (ℕ × Bool))
  unfolding load loaded_or_empty
  members_from_store s = loaded_or_empty (load s)

  -- The end of the two cases that check the new peer URLs.
  unfoldable pub check_urls : List (List ℕ) → List ℕ → Result (Unit {0})
  unfolding any_taken
  check_urls urls context =
      Common.◌>>=◌ (must (js.decode_member context))
        λ m. if any_taken urls m.raft_attributes.peer_urls then err peer_url_exists else ok tt

  -- The switch on the type of the change, with the member of its id.
  unfoldable pub check_change :
      ConfChangeType → Option Member → ℕ → List ℕ → List (ℕ × Member) → Result (Unit {0})
  unfolding urls_of check_urls
  check_change add_node (some _) id context members = err id_exists
  check_change add_node none id context members = check_urls (urls_of (λ m. false) members) context
  check_change remove_node (some _) id context members = ok tt
  check_change remove_node none id context members = err id_not_found
  check_change update_node (some _) id context members =
      check_urls (urls_of (λ m. m.id == id) members) context
  check_change update_node none id context members = err id_not_found
  check_change (other_change _) found id context members = panic

  unfoldable pub validate_configuration_change : ConfChange → S → Result (Unit {0})
  unfolding members_from_store check_change
  validate_configuration_change cc s = Common.◌>>=◌ (members_from_store s) λ r.
      let (members, removed) = r in
      if is_set cc.node_id removed
      then err id_removed
      else check_change cc.change (lookup cc.node_id members) cc.node_id cc.context members

  -- The maps of the cluster have changed, in place, and are saved.
  unfoldable pub save_changed : RaftCluster → Exec (ClusterState S) (Unit {0})
  unfolding save_to_storage
  save_changed d = do c ← get; put (record c { cluster = d }); save_to_storage

  unfoldable pub add_member : Member → Exec (ClusterState S) (Unit {0})
  unfolding save_changed put_member
  add_member m = do c ← get; save_changed (put_member m.id m c.cluster)

  unfoldable pub remove_member : ℕ → Exec (ClusterState S) (Unit {0})
  unfolding save_changed retire
  remove_member i = do c ← get; save_changed (retire i c.cluster)

  unfoldable pub update_found : ℕ → Attributes → Option Member → Exec (ClusterState S) (Unit {0})
  unfolding save_changed put_member
  update_found i attr (some m) = do
    c ← get
    save_changed (put_member i (record m { attributes = attr }) c.cluster)
  update_found i attr none = do
    c ← get
    lift (elim (lookup i c.cluster.removed_map) [ none ↦ panic | some _ ↦ ok tt ])

  unfoldable pub update_attributes : ℕ → Attributes → Exec (ClusterState S) (Unit {0})
  unfolding update_found
  update_attributes i attr = do c ← get; update_found i attr (lookup i c.cluster.members_map)

  -- An id that is no member is a nil pointer.
  unfoldable pub update_raft_attributes : ℕ → RaftAttributes → Exec (ClusterState S) (Unit {0})
  unfolding save_changed put_member
  update_raft_attributes i attr = do
    c ← get
    m ← lift (must (lookup i c.cluster.members_map))
    save_changed (put_member i (record m { raft_attributes = attr }) c.cluster)

-- The members, and those of them that have started, but the given one.
unfoldable pub count_but : (ℕ → Bool) → List (ℕ × Member) → ℕ × ℕ
unfolding is_started
count_but skip [] = (0, 0)
count_but skip ((i, m) ∷ ms) =
    let (members, started) = count_but skip ms in
    if skip m.id
    then (members, started)
    else (members + 1, (if is_started m then started + 1 else started))

unfoldable pub is_ready_to_add_new_member : RaftCluster → Bool
unfolding count_but
is_ready_to_add_new_member c =
    let (members, started) = count_but (λ i. false) c.members_map in
    if started == 1 && members + 1 == 2 then true else not (ltb started ((members + 1) / 2 + 1))

unfoldable pub is_ready_to_remove_member : RaftCluster → ℕ → Bool
unfolding count_but
is_ready_to_remove_member c id =
    let (members, started) = count_but (λ i. i == id) c.members_map in
    not (ltb started (members / 2 + 1))
