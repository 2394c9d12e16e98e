-- ===== src/Membership/Quorum.antt =====
-- IsReadyToAddNewMember and IsReadyToRemoveMember: the quorum of the cluster after the change.
use kingbus.Common.{
  ℕ, ◌*◌, ◌<◌, ◌≡◌, refl, ◌↔◌, true, false, ◌&&◌, none, List, [], ◌∷◌, arith, Bool-cases, ◌==◌, ◌⊎◌,
  inl, inr, lookup, erase,
}
use kingbus.Membership.{
  Member, RaftCluster, is_started, count_but, is_ready_to_add_new_member, is_ready_to_remove_member,
  put_member, retire,
}

-- Every member is under its id.
abbrev pub EachKeyed : List (ℕ × Member) → Type 0
EachKeyed [] = Unit
EachKeyed ((i, m) ∷ ms) = (m.id ≡ i) × EachKeyed ms

abbrev pub members_count : RaftCluster → ℕ
members_count c = (count_but (λ i. false) c.members_map).0

abbrev pub started_count : RaftCluster → ℕ
started_count c = (count_but (λ i. false) c.members_map).1

-- More than half of the members have started.
abbrev pub HasQuorum : RaftCluster → Type 0
HasQuorum c = members_count c < 2 * started_count c

count_but-erase :
    (id : ℕ) (ms : List (ℕ × Member))
    → EachKeyed ms
    → count_but (λ i. false) (erase id ms) ≡ count_but (λ i. i == id) ms
unfolding count_but
count_but-erase id [] k = refl
count_but-erase id ((i, m) ∷ ms) (e, k) = ground (arith, count_but-erase id ms k)

erase_absent : (id : ℕ) (ms : List (ℕ × Member)) → lookup id ms ≡ none → erase id ms ≡ ms
erase_absent id [] h = refl
erase_absent id ((i, m) ∷ ms) h = ground (arith, erase_absent id ms)

-- The members without one are ready for its removal exactly where most of them have started.
pub remove-HasQuorum :
    (c : RaftCluster) (id : ℕ)
    → EachKeyed c.members_map
    → is_ready_to_remove_member c id ≡ true ↔ HasQuorum (retire id c)
unfolding is_ready_to_remove_member retire count_but
remove-HasQuorum c id k =
    let e = count_but-erase id c.members_map k in (λ h. ground (arith, e), λ h. ground (arith, e))

pub add-HasQuorum :
    (c : RaftCluster) (m : Member)
    → lookup m.id c.members_map ≡ none
    → is_started m ≡ false
    → is_ready_to_add_new_member c ≡ true
      ↔ (HasQuorum (put_member m.id m c) ⊎ ((members_count c ≡ 1) × (started_count c ≡ 1)))
unfolding is_ready_to_add_new_member put_member count_but
add-HasQuorum c m absent fresh =
    let e = erase_absent m.id c.members_map absent in
    (
      λ h. elim (Bool-cases (members_count c == 1 && started_count c == 1)) [
        | inl both ↦ inr (ground (arith, both), ground (arith, both))
        | inr other ↦ inl (ground (arith, e, other, h))
      ],
      λ h. ground (arith, e),
    )
