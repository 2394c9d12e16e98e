-- ===== src/Requests.antt =====
-- server/server.go and server/util.go: what a server checks of a change of the members before it
-- is proposed, and the retries of a proposal. The transport is a parameter: since when it has been
-- connected to a member, if it is. The proposal itself, with the wait for its result, is one too.
pub mod Quorum
pub mod Retry
mod Tests
use kingbus.Common.{
  ℕ, zero, suc, ◌+◌, ◌-◌, ◌/◌, Bool, true, false, not, ◌&&◌, ◌||◌, Option, none, some, List, [],
  ◌∷◌, length, ltb, leb, ◌==◌, if◌then◌else◌, Error, not_enough_started_members, unhealthy, Result,
  ok, err, panic, ◌>>=◌,
}
use kingbus.Membership.{
  Member, RaftCluster, ConfChange, add_node, remove_node, update_node, is_ready_to_add_new_member,
  is_ready_to_remove_member,
}

-- Transport.ActiveSince, with no time where the member is not connected.
abbrev pub Transport : Type 0
Transport = ℕ → Option ℕ

unfoldable pub is_connected_since : Transport → ℕ → ℕ → Bool
is_connected_since active_since since remote = elim (active_since remote) [
  | none ↦ false
  | some t ↦ ltb t since
]

-- RaftCluster.Members, as the values of the map.
abbrev pub values : List (ℕ × Member) → List Member
values [] = []
values ((i, m) ∷ ms) = m ∷ values ms

unfoldable pub num_connected_since : Transport → ℕ → ℕ → List Member → ℕ
unfolding is_connected_since
num_connected_since transport since self [] = 0
num_connected_since transport since self (m ∷ ms) =
    let rest = num_connected_since transport since self ms in
    if m.id == self || is_connected_since transport since m.id then rest + 1 else rest

unfoldable pub is_connected_fully_since : Transport → ℕ → ℕ → List Member → Bool
unfolding num_connected_since
is_connected_fully_since transport since self ms =
    num_connected_since transport since self ms == length ms

unfoldable pub is_connected_to_quorum_since : Transport → ℕ → ℕ → List Member → Bool
unfolding num_connected_since
is_connected_to_quorum_since transport since self ms =
    leb (length ms / 2 + 1) (num_connected_since transport since self ms)

-- The loop of longestConnected, with the member that has been connected longest so far.
unfoldable pub longest_from : Transport → List ℕ → ℕ × Option ℕ → ℕ × Option ℕ
longest_from transport [] best = best
longest_from transport (i ∷ is) (longest, oldest) =
    let next : ℕ × Option ℕ = elim (transport i) [
      | none ↦ (longest, oldest)
      | some t ↦ elim oldest [
        | none ↦ (i, some t)
        | some o ↦ if ltb t o then (i, some t) else (longest, some o)
      ]
    ] in
    longest_from transport is next

unfoldable pub longest_connected : Transport → List ℕ → Option ℕ
unfolding longest_from
longest_connected transport is =
    let (longest, _) = longest_from transport is (0, none) in
    if longest == 0 then none else some longest

-- What the checks of a change read: the option StrictReconfigCheck, this server, the transport and
-- the time HealthInterval ago.
pub record Health : Type 0 where
  pub strict_reconfig_check : Bool
  pub self : ℕ
  pub transport : Transport
  pub since : ℕ

unfoldable pub may_remove_member : Health → RaftCluster → ℕ → Result (Unit {0})
unfolding is_ready_to_remove_member num_connected_since
may_remove_member h c id =
    if not h.strict_reconfig_check
    then ok tt
    else if not (is_ready_to_remove_member c id)
    then err not_enough_started_members
    else if not (id == h.self) && elim (h.transport id) [ none ↦ true | some _ ↦ false ]
    then ok tt
    else let ms = values c.members_map in
      -- active - 1 may be below zero, where the test holds
      if ltb (num_connected_since h.transport h.since h.self ms) (1 + (1 + (length ms - 1) / 2))
      then err unhealthy
      else ok tt

unfoldable pub may_add_member : Health → RaftCluster → Result (Unit {0})
unfolding is_ready_to_add_new_member is_connected_fully_since
may_add_member h c =
    if not h.strict_reconfig_check
    then ok tt
    else if not (is_ready_to_add_new_member c)
    then err not_enough_started_members
    else if not (is_connected_fully_since h.transport h.since h.self (values c.members_map))
    then err unhealthy
    else ok tt

-- The requests; `configure` proposes a change, without its id, and waits for the members.
module _ {R : Type 0} (configure : ConfChange → Result R) (encode : Member → Result (List ℕ)) where
  unfoldable pub add_member : Health → RaftCluster → Member → Result R
  unfolding may_add_member
  add_member h c m = may_add_member h c >>= λ _. encode m >>= λ context.
      configure (record { id = 0; change = add_node; node_id = m.id; context = context })

  unfoldable pub remove_member : Health → RaftCluster → ℕ → Result R
  unfolding may_remove_member
  remove_member h c id = may_remove_member h c id >>= λ _.
      configure (record { id = 0; change = remove_node; node_id = id; context = [] })

  unfoldable pub update_member : Member → Result R
  update_member m = encode m >>= λ context.
      configure (record { id = 0; change = update_node; node_id = m.id; context = context })

abbrev pub propose_max_retry_count : ℕ
propose_max_retry_count = 1000

-- How the retries end: the proposal of that number is taken, the server leads no more when that
-- many have failed, or the error of the last one is sent to the server, which stops.
pub data Proposal : Type 0 where
  accepted lost_lead : ℕ → Proposal
  gave_up : Error → Proposal

-- The loop of ProposeWithRetry, where `leads k` and `answer k` are what it meets after k failures.
unfoldable pub propose_from : (ℕ → Bool) → (ℕ → Option Error) → ℕ → ℕ → Option Proposal
propose_from leads answer zero retry_count = none
propose_from leads answer (suc fuel) retry_count =
    let rest = propose_from leads answer fuel (retry_count + 1) in
    if ltb retry_count propose_max_retry_count && leads retry_count
    then elim (answer retry_count) [
      | none ↦ some (accepted retry_count)
      | some e ↦ if leb propose_max_retry_count (retry_count + 1) then some (gave_up e) else rest
    ]
    else some (lost_lead retry_count)

unfoldable pub propose_with_retry : (ℕ → Bool) → (ℕ → Option Error) → Option Proposal
unfolding propose_from
propose_with_retry leads answer = propose_from leads answer (suc propose_max_retry_count) 0

-- What updateLeadership does: the syncer of a server that does not lead is stopped, that of a new
-- leader is started ten seconds later.
pub data Leadership : Type 0 where
  stop_syncer start_later no_action : Leadership

unfoldable pub update_leadership : Bool → Bool → Bool → Leadership
update_leadership lead_change is_leader is_syncer_started =
    if not is_leader && is_syncer_started
    then stop_syncer
    else if lead_change && is_leader
    then start_later
    else no_action
