-- ===== src/Membership/Validated.antt =====
-- What ValidateConfigurationChange ensures: a change that it accepts keeps the cluster sound.
use kingbus.Common.{
  ℕ, ◌≡◌, ◌≢◌, refl, Bool, true, false, ◌||◌, Option, none, some, List, [], ◌∷◌, ◌++◌, arith, ◌==◌,
  inl, inr, Bool-cases, lookup, bytes_eq, bytes_eq_sound, ok, panic,
}
use kingbus.Store.{Store}
use kingbus.Membership.{
  Member, Attributes, RaftCluster, ClusterState, ConfChange, ConfChangeType, add_node, remove_node,
  update_node, other_change, Json, is_set, has_url, urls_of, any_taken, load, loaded_or_empty,
  put_member, members_from_store, check_urls, check_change, validate_configuration_change,
}
use kingbus.Membership.Invariant.{Keyed, IsSound, put_member-IsSound}

has_url-append :
    (xs ys : List (List ℕ)) (u : List ℕ) → has_url (xs ++ ys) u ≡ (has_url xs u || has_url ys u)
unfolding has_url
has_url-append [] ys u = refl
has_url-append (x ∷ xs) ys u = ground (arith, has_url-append xs ys u)

not_taken :
    (urls us : List (List ℕ)) (u : List ℕ)
    → any_taken urls us ≡ false
    → has_url us u ≡ true
    → has_url urls u ≡ false
unfolding any_taken has_url
not_taken urls [] u h k = cc
not_taken urls (v ∷ us) u h k = elim (Bool-cases (bytes_eq v u)) [
  | inl same ↦ ground (arith, bytes_eq_sound v u same)
  | inr other ↦ ground (arith, not_taken urls us u)
]

not_among :
    (skip : Member → Bool) (ms : List (ℕ × Member)) (j : ℕ) (n : Member) (u : List ℕ)
    → lookup j ms ≡ some n
    → skip n ≡ false
    → has_url (urls_of skip ms) u ≡ false
    → has_url n.raft_attributes.peer_urls u ≡ false
unfolding urls_of
not_among skip [] j n u f s h = cc
not_among skip ((i, m) ∷ ms) j n u f s h =
    ground (
      arith,
      not_among skip ms j n u,
      has_url-append m.raft_attributes.peer_urls (urls_of skip ms) u,
    )

-- The types of change that the cluster makes.
abbrev pub IsKnown : ConfChangeType → Type 0
IsKnown (other_change _) = ⊥
IsKnown _ = Unit

module _ {S : Type 0} (st : Store S) (js : Json) where
  -- What a proposed change that the check accepts may rely on.
  check_urls_lem :
      (urls : List (List ℕ)) (context : List ℕ) (m : Member)
      → js.decode_member context ≡ some m
      → check_urls st js urls context ≡ ok tt
      → any_taken urls m.raft_attributes.peer_urls ≡ false
  unfolding check_urls
  check_urls_lem urls context m d h = ground (arith, h, d)

  pub validated :
      (cc : ConfChange) (c : ClusterState S)
      → load st js c.store ≡ ok c.cluster
      → validate_configuration_change st js cc c.store ≡ ok tt
      → is_set cc.node_id c.cluster.removed_map ≡ false
        × check_change st js cc.change
            (lookup cc.node_id c.cluster.members_map)
            cc.node_id
            cc.context
            c.cluster.members_map
          ≡ ok tt
  unfolding validate_configuration_change members_from_store loaded_or_empty
  validated cc c l v = ground (arith, v, l)

  -- What a change that adds or updates a member may rely on: no other member has its URLs.
  abbrev Free : ℕ → Member → RaftCluster → Type 0
  Free i m c =
      (j : ℕ) (n : Member) (u : List ℕ)
      → lookup j c.members_map ≡ some n
      → has_url m.raft_attributes.peer_urls u ≡ true
      → has_url n.raft_attributes.peer_urls u ≡ true
      → i ≡ j

  urls_differ :
      (skip : Member → Bool) (ms : List (ℕ × Member)) (j : ℕ) (m n : Member) (u context : List ℕ)
      → js.decode_member context ≡ some m
      → check_urls st js (urls_of skip ms) context ≡ ok tt
      → lookup j ms ≡ some n
      → skip n ≡ false
      → has_url m.raft_attributes.peer_urls u ≡ true
      → has_url n.raft_attributes.peer_urls u ≡ false
  urls_differ skip ms j m n u context d h f s hm =
      let other =
        not_taken (urls_of skip ms) m.raft_attributes.peer_urls u
          (check_urls_lem (urls_of skip ms) context m d h) hm in
      not_among skip ms j n u f s other

  added-Free :
      (i : ℕ) (m : Member) (c : RaftCluster) (context : List ℕ)
      → js.decode_member context ≡ some m
      → check_urls st js (urls_of (λ n. false) c.members_map) context ≡ ok tt
      → Free i m c
  added-Free i m c context d h j n u f hm hn =
      let none_has = urls_differ (λ n. false) c.members_map j m n u context d h f refl hm in cc

  updated-Free :
      (i : ℕ) (m : Member) (c : RaftCluster) (context : List ℕ)
      → Keyed c.members_map
      → js.decode_member context ≡ some m
      → check_urls st js (urls_of (λ n. n.id == i) c.members_map) context ≡ ok tt
      → Free i m c
  updated-Free i m c context keyed d h j n u f hm hn = elim (Bool-cases (n.id == i)) [
    | inl same ↦ ground (arith, keyed j n f)
    | inr other ↦
        let none_has = urls_differ (λ n. n.id == i) c.members_map j m n u context d h f other hm in
        cc
  ]

  pub added-IsSound :
      (f : Option Member) (i : ℕ) (m : Member) (c : RaftCluster) (context : List ℕ)
      → IsSound c
      → is_set i c.removed_map ≡ false
      → check_change st js add_node f i context c.members_map ≡ ok tt
      → js.decode_member context ≡ some m
      → m.id ≡ i
      → IsSound (put_member i m c)
  unfolding check_change
  added-IsSound (some n) i m c context s r h d e = cc
  added-IsSound none i m c context s r h d e =
      put_member-IsSound i m c e r (added-Free i m c context d h) s

  -- The member that is updated keeps its id and gets the URLs of the decoded one.
  pub updated-IsSound :
      (i : ℕ) (m n : Member) (c : RaftCluster) (context : List ℕ)
      → IsSound c
      → is_set i c.removed_map ≡ false
      → lookup i c.members_map ≡ some n
      → check_change st js update_node (some n) i context c.members_map ≡ ok tt
      → js.decode_member context ≡ some m
      → IsSound (put_member i (record n { raft_attributes = m.raft_attributes }) c)
  unfolding check_change
  updated-IsSound i m n c context s r f h d =
      put_member-IsSound i (record n { raft_attributes = m.raft_attributes }) c (s.keyed i n f) r
        (λ j p u fp hm hp. updated-Free i m c context s.keyed d h j p u fp hm hp) s

  -- A member that is there may change its attributes.
  pub renamed-IsSound :
      (i : ℕ) (n : Member) (attr : Attributes) (c : RaftCluster)
      → IsSound c
      → lookup i c.members_map ≡ some n
      → IsSound (put_member i (record n { attributes = attr }) c)
  renamed-IsSound i n attr c s f =
      put_member-IsSound i (record n { attributes = attr }) c (s.keyed i n f)
        (elim (Bool-cases (is_set i c.removed_map)) [
          | inl gone ↦ let absent = s.retired i gone in cc
          | inr kept ↦ kept
        ])
        (λ j p u fp hm hp. s.one_owner i j n p u f fp hm hp) s

  check_urls-returns :
      (urls : List (List ℕ)) (context : List ℕ) (m : Member)
      → js.decode_member context ≡ some m
      → check_urls st js urls context ≢ panic
  unfolding check_urls
  check_urls-returns urls context m d h =
      elim (Bool-cases (any_taken urls m.raft_attributes.peer_urls)) [
        | inl taken ↦ ground (arith, h, d, taken)
        | inr free ↦ ground (arith, h, d, free)
      ]

  check_change-returns :
      (k : ConfChangeType) (f : Option Member) (i : ℕ) (context : List ℕ) (ms : List (ℕ × Member))
      (m : Member)
      → IsKnown k
      → js.decode_member context ≡ some m
      → check_change st js k f i context ms ≢ panic
  unfolding check_change
  check_change-returns add_node (some _) i context ms m known d h = cc
  check_change-returns add_node none i context ms m known d h =
      check_urls-returns (urls_of (λ n. false) ms) context m d h
  check_change-returns remove_node (some _) i context ms m known d h = cc
  check_change-returns remove_node none i context ms m known d h = cc
  check_change-returns update_node (some _) i context ms m known d h =
      check_urls-returns (urls_of (λ n. n.id == i) ms) context m d h
  check_change-returns update_node none i context ms m known d h = cc
  check_change-returns (other_change n) f i context ms m known d h = known

  pub validate-returns :
      (c : ConfChange) (s : ClusterState S) (m : Member)
      → load st js s.store ≡ ok s.cluster
      → IsKnown c.change
      → js.decode_member c.context ≡ some m
      → validate_configuration_change st js c s.store ≢ panic
  unfolding validate_configuration_change members_from_store loaded_or_empty
  validate-returns c s m l known d h =
      let fine =
        check_change-returns c.change (lookup c.node_id s.cluster.members_map) c.node_id c.context
          s.cluster.members_map m known d in
      elim (Bool-cases (is_set c.node_id s.cluster.removed_map)) [
        | inl gone ↦ ground (arith, h, l, gone)
        | inr kept ↦ fine (ground (arith, h, l, kept))
      ]
