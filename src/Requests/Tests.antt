-- ===== src/Requests/Tests.antt =====
-- The checks of a removal in a cluster of three, and the retries of a proposal.
use kingbus.Common.{
  ℕ, ◌≡◌, ◌↔◌, refl, true, Option, none, some, [], ◌∷◌, ltb, if◌then◌else◌, Error, os_error, ok,
}
use kingbus.Membership.{RaftCluster, new_cluster, is_ready_to_remove_member, retire}
use kingbus.Requests.{
  Health, may_remove_member, is_connected_to_quorum_since, is_connected_since, Proposal, accepted,
  propose_with_retry,
}
use kingbus.Requests.Quorum.{
  IsRemovable, HasActiveQuorum, may_remove_member-quorum, may_remove_member-connected,
}
use kingbus.Requests.Retry.{Explains, propose_with_retry-ends}
use kingbus.Concrete.Server.{member_of}

abbrev three : RaftCluster
three = record new_cluster {
  members_map = (1, member_of 1) ∷ (2, member_of 2) ∷ (3, member_of 3) ∷ [];
}

-- All are connected, since long.
abbrev healthy : Health
healthy = record { strict_reconfig_check = true; self = 1; transport = λ i. some i; since = 9 }

three-IsRemovable : IsRemovable three 3 (member_of 3)
three-IsRemovable = record {
  keyed = (refl, (refl, (refl, tt)));
  distinct = (refl, (refl, (refl, tt)));
  present = refl;
}

may_remove_member-quorum_example : HasActiveQuorum healthy (retire 3 three)
unfolding may_remove_member is_connected_to_quorum_since
may_remove_member-quorum_example =
    may_remove_member-quorum healthy three 3 (member_of 3) three-IsRemovable refl refl refl

may_remove_member-connected_example :
    (may_remove_member healthy three 3 ≡ ok tt)
    ↔ ((is_ready_to_remove_member three 3 ≡ true) × HasActiveQuorum healthy (retire 3 three))
unfolding is_connected_since
may_remove_member-connected_example =
    may_remove_member-connected healthy three 3 (member_of 3) three-IsRemovable refl refl

-- The first two proposals fail.
abbrev third : ℕ → Option Error
third k = if ltb k 2 then some os_error else none

propose_with_retry-ends_example :
    (p : Proposal) × ((propose_with_retry (λ k. true) third ≡ some p)
      × Explains (λ k. true) third p)
propose_with_retry-ends_example = propose_with_retry-ends (λ k. true) third

third_accepted : propose_with_retry (λ k. true) third ≡ some (accepted 2)
unfolding propose_with_retry
third_accepted = refl
