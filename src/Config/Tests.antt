-- ===== src/Config/Tests.antt =====
-- A cluster of two, of which the first node is started.
use kingbus.Common.{ℕ, ◌≡◌, ◌↔◌, refl, Bool, true, false, ◌&&◌, none, some, List, [], ◌∷◌, bytes_eq}
use kingbus.Config.{
  UrlsMap, UrlLibrary, RaftNodeConfig, duplicate_url, verify_bootstrap, verify_join_existing,
}
use kingbus.Config.Verify.{MayFound, verify_bootstrap-MayFound}

abbrev same : List (List ℕ) → List (List ℕ) → Bool
same [] [] = true
same (u ∷ us) (v ∷ vs) = bytes_eq u v && same us vs
same _ _ = false

abbrev names : UrlsMap → List ℕ
names [] = []
names ((n, us) ∷ ms) = 61 ∷ names ms

abbrev plain_urls : UrlLibrary
plain_urls = record { sort = λ us. us; strings_equal = same; map_text = names }

abbrev first_node : RaftNodeConfig
first_node = record {
  name = 1 ∷ [];
  peer_urls = (10 ∷ []) ∷ [];
  initial_peer_urls_map = (1 ∷ [], (10 ∷ []) ∷ []) ∷ (2 ∷ [], (11 ∷ []) ∷ []) ∷ [];
  reserve_data_size = 4;
}

verify_bootstrap-MayFound_example :
    (verify_bootstrap plain_urls first_node ≡ none) ↔ MayFound plain_urls first_node
verify_bootstrap-MayFound_example = verify_bootstrap-MayFound plain_urls first_node

accepted : verify_bootstrap plain_urls first_node ≡ none
unfolding verify_bootstrap
accepted = refl

-- A node that joins with a URL of another.
refused :
    verify_join_existing (record first_node {
      initial_peer_urls_map = (1 ∷ [], (10 ∷ []) ∷ []) ∷ (2 ∷ [], (10 ∷ []) ∷ []) ∷ [];
    })
    ≡ some duplicate_url
unfolding verify_join_existing
refused = refl
