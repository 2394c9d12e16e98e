-- ===== src/Requests/Quorum.antt =====
-- mayRemoveMember: the quorum of connected members survives the removal.
use mathlib.Core.Path.{subst}
use kingbus.Common.{
  ℕ, ◌+◌, ◌≡◌, ◌↔◌, refl, Bool, true, ◌||◌, none, some, List, [], ◌∷◌, arith, length, lookup, erase,
  ◌==◌, if◌then◌else◌, ok, Bool-cases, Option-cases, inl, inr,
}
use kingbus.Membership.{Member, RaftCluster, retire, is_ready_to_remove_member}
use kingbus.Membership.Quorum.{EachKeyed}
use kingbus.Requests.{
  is_connected_since, values, num_connected_since, is_connected_to_quorum_since, Health,
  may_remove_member,
}

-- A member counts as connected if it is this server or the transport says so.
abbrev pub counts : Health → ℕ → Bool
counts h i = i == h.self || is_connected_since h.transport h.since i

-- The members connected, and those there are, among the members of a cluster.
abbrev pub connected : Health → RaftCluster → ℕ
connected h c = num_connected_since h.transport h.since h.self (values c.members_map)

-- The ids of a map are told apart.
abbrev pub Distinct : List (ℕ × Member) → Type 0
Distinct [] = Unit
Distinct ((i, m) ∷ ms) = (lookup i ms ≡ none) × Distinct ms

module _ (h : Health) (id : ℕ) where
  num : List (ℕ × Member) → ℕ
  num ms = num_connected_since h.transport h.since h.self (values ms)

  absent : (ms : List (ℕ × Member)) → lookup id ms ≡ none → erase id ms ≡ ms
  absent [] e = refl
  absent ((i, m) ∷ ms) e = ground (arith, absent ms)

  num-erase :
      (m : Member) (ms : List (ℕ × Member))
      → EachKeyed ms
      → Distinct ms
      → lookup id ms ≡ some m
      → (num ms ≡ num (erase id ms) + (if counts h id then 1 else 0))
        × (length (values ms) ≡ length (values (erase id ms)) + 1)
  unfolding num num_connected_since
  num-erase m [] k d e = cc
  num-erase m ((i, n) ∷ ms) (k, ks) (d, ds) e = elim (Bool-cases (i == id)) [
    | inl here ↦
        let at : i ≡ id = ground (arith, here) in
        let gone : erase id ms ≡ ms = absent ms (subst (λ x. lookup x ms ≡ none) at d) in
        ground (arith, here, gone, k)
    | inr other ↦ ground (arith, other, num-erase m ms ks ds)
  ]

abbrev pub HasActiveQuorum : Health → RaftCluster → Type 0
HasActiveQuorum h c =
    is_connected_to_quorum_since h.transport h.since h.self (values c.members_map) ≡ true

-- What is known of the cluster and of the member to be removed.
pub record IsRemovable (c : RaftCluster) (id : ℕ) (m : Member) : Type 0 where
  pub keyed : EachKeyed c.members_map
  pub distinct : Distinct c.members_map
  pub present : lookup id c.members_map ≡ some m

module _ (h : Health) (c : RaftCluster) (id : ℕ) (m : Member) (known : IsRemovable c id m) where
  abbrev before : ℕ
  before = num_connected_since h.transport h.since h.self (values c.members_map)

  abbrev after : ℕ
  after = num_connected_since h.transport h.since h.self (values (erase id c.members_map))

  numbers :
      (before ≡ after + (if counts h id then 1 else 0))
      × (length (values c.members_map) ≡ length (values (erase id c.members_map)) + 1)
  unfolding num
  numbers = num-erase h id m c.members_map known.keyed known.distinct known.present

  -- Where the strict check is on and mayRemoveMember allows the removal of a member, a cluster with a
  -- quorum of connected members still has one when the member is out of it. Each member is under its
  -- own id, and an id is there once.
  pub may_remove_member-quorum :
      h.strict_reconfig_check ≡ true
      → may_remove_member h c id ≡ ok tt
      → HasActiveQuorum h c
      → HasActiveQuorum h (retire id c)
  unfolding may_remove_member is_connected_to_quorum_since retire is_connected_since
  may_remove_member-quorum strict allowed quorum = elim (Option-cases (h.transport id)) [
    | inl away ↦ ground (arith, strict, allowed, quorum, away, numbers)
    | inr (t, there) ↦ ground (arith, strict, allowed, quorum, there, numbers)
  ]

  -- Where the strict check is on and the member itself is connected, mayRemoveMember allows its
  -- removal exactly where the cluster is ready for it and a quorum of the members that stay is
  -- connected. Each member is under its own id, and an id is there once.
  pub may_remove_member-connected :
      h.strict_reconfig_check ≡ true
      → counts h id ≡ true
      → (may_remove_member h c id ≡ ok tt)
        ↔ ((is_ready_to_remove_member c id ≡ true) × HasActiveQuorum h (retire id c))
  unfolding may_remove_member is_connected_to_quorum_since retire is_connected_since
  may_remove_member-connected strict counted = elim (Option-cases (h.transport id)) [
    | inl away ↦ (
      λ a. ground (arith, strict, counted, away, numbers),
      λ a. ground (arith, strict, counted, away, numbers),
    )
    | inr (t, there) ↦ (
      λ a. ground (arith, strict, counted, there, numbers),
      λ a. ground (arith, strict, counted, there, numbers),
    )
  ]
