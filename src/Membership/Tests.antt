-- ===== src/Membership/Tests.antt =====
-- Clusters of three members, of which some have started.
use kingbus.Common.{ℕ, List, [], ◌∷◌}
use kingbus.Membership.{Member, RaftCluster}

abbrev member_named : ℕ → List ℕ → Member
member_named i name = record {
  id = i;
  raft_attributes = record { peer_urls = [] };
  attributes = record { name = name; admin_urls = [] };
}

-- Members 1 and 2 have started.
abbrev three_members : RaftCluster
three_members = record {
  id = 7;
  members_map =
      (1, member_named 1 (49 ∷ [])) ∷ (2, member_named 2 (50 ∷ [])) ∷ (3, member_named 3 []) ∷ [];
  removed_map = [];
}
