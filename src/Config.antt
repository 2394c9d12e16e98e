-- ===== src/Config.antt =====
-- config/config.go: what is checked of the configuration of a raft node before it starts. A URL is its
-- text. The sorting and the comparison of URLs, and the text of a map of them, are parameters.
pub mod Verify
mod Tests
use kingbus.Common.{
  ℕ, Bool, true, false, not, ◌||◌, Option, none, some, List, [], ◌∷◌, length, ltb, ◌==◌, bytes_eq,
  if◌then◌else◌,
}

-- types.URLsMap of etcd; a name stands in it once.
abbrev pub UrlsMap : Type 0
UrlsMap = List (List ℕ × List (List ℕ))

pub record UrlLibrary : Type 0 where
  pub sort : List (List ℕ) → List (List ℕ)
  pub strings_equal : List (List ℕ) → List (List ℕ) → Bool
  pub map_text : UrlsMap → List ℕ

-- The fields of RaftNodeConfig that are checked; a negative size counts as 0.
pub record RaftNodeConfig : Type 0 where
  pub name : List ℕ
  pub peer_urls : List (List ℕ)
  pub initial_peer_urls_map : UrlsMap
  pub reserve_data_size : ℕ

-- The errors, by what they say.
pub data Complaint : Type 0 where
  no_local_member missing_from_peer_urls missing_from_initial not_resolved : Complaint
  duplicate_url cluster_unset reserve_too_small : Complaint

unfoldable pub urls_of_name : List ℕ → UrlsMap → Option (List (List ℕ))
urls_of_name name [] = none
urls_of_name name ((n, us) ∷ ms) =
    let rest = urls_of_name name ms in if bytes_eq n name then some us else rest

unfoldable pub has_url : List ℕ → List (List ℕ) → Bool
has_url u [] = false
has_url u (v ∷ vs) = bytes_eq v u || has_url u vs

-- Whether one of the first URLs is not among the others.
unfoldable pub any_missing : List (List ℕ) → List (List ℕ) → Bool
unfolding has_url
any_missing [] vs = false
any_missing (u ∷ us) vs = not (has_url u vs) || any_missing us vs

-- The loops of checkDuplicateURL with the URLs seen so far.
unfoldable pub check_urls : List (List ℕ) → List (List ℕ) → Option (List (List ℕ))
unfolding has_url
check_urls [] seen = some seen
check_urls (u ∷ us) seen = elim (has_url u seen) [ true ↦ none | false ↦ check_urls us (u ∷ seen) ]

unfoldable pub check_each : UrlsMap → List (List ℕ) → Bool
unfolding check_urls
check_each [] seen = false
check_each ((n, us) ∷ ms) seen = elim (check_urls us seen) [
  | none ↦ true
  | some s ↦ check_each ms s
]

unfoldable pub check_duplicate_url : UrlsMap → Bool
unfolding check_each
check_duplicate_url ms = check_each ms []

-- The first complaint.
abbrev pub or_else : Option Complaint → Option Complaint → Option Complaint
or_else none k = k
or_else (some e) k = some e

unfoldable pub has_local_member : RaftNodeConfig → Option Complaint
unfolding urls_of_name
has_local_member c = elim (urls_of_name c.name c.initial_peer_urls_map) [
  | none ↦ some no_local_member
  | some us ↦ none
]

-- The URLs of a name that is not in the map are none.
abbrev pub urls_or_none : Option (List (List ℕ)) → List (List ℕ)
urls_or_none none = []
urls_or_none (some us) = us

unfoldable pub advertise_matches_cluster : UrlLibrary → RaftNodeConfig → Option Complaint
unfolding urls_of_name any_missing
advertise_matches_cluster l c =
    let urls = urls_or_none (urls_of_name c.name c.initial_peer_urls_map) in
    if l.strings_equal (l.sort c.peer_urls) (l.sort urls)
    then none
    else if any_missing urls c.peer_urls
    then some missing_from_peer_urls
    else if any_missing c.peer_urls urls
    then some missing_from_initial
    else some not_resolved

abbrev pub complain : Bool → Complaint → Option Complaint
complain true e = some e
complain false e = none

unfoldable pub verify_bootstrap : UrlLibrary → RaftNodeConfig → Option Complaint
unfolding has_local_member advertise_matches_cluster check_duplicate_url
verify_bootstrap l c = or_else (has_local_member c) (
    or_else (advertise_matches_cluster l c) (
      or_else (complain (check_duplicate_url c.initial_peer_urls_map) duplicate_url) (
        or_else (complain (length (l.map_text c.initial_peer_urls_map) == 0) cluster_unset)
          (complain (ltb c.reserve_data_size 4) reserve_too_small))))

unfoldable pub verify_join_existing : RaftNodeConfig → Option Complaint
unfolding has_local_member check_duplicate_url
verify_join_existing c =
    or_else (has_local_member c)
      (complain (check_duplicate_url c.initial_peer_urls_map) duplicate_url)
