-- ===== src/Config/Verify.antt =====
-- Which configurations are accepted.
use kingbus.Common.{
  ℕ, ◌≤◌, ◌≡◌, ◌↔◌, refl, sym, ◌∙◌, Bool, true, false, ◌||◌, none, some, List, [], ◌∷◌, ◌++◌, arith,
  length, ◌==◌, bytes_eq, Bool-cases, Option-cases, inl, inr,
}
use kingbus.Config.{
  UrlsMap, UrlLibrary, RaftNodeConfig, has_url, urls_of_name, check_urls, check_each,
  check_duplicate_url, has_local_member, advertise_matches_cluster, verify_bootstrap,
}

-- All the URLs of a map.
abbrev pub all_urls : UrlsMap → List (List ℕ)
all_urls [] = []
all_urls ((n, us) ∷ ms) = us ++ all_urls ms

-- A URL is none of the others; URLs that differ from one another.
abbrev pub Fresh : List ℕ → List (List ℕ) → Type 0
Fresh u [] = Unit
Fresh u (v ∷ vs) = (bytes_eq u v ≡ false) × Fresh u vs

abbrev pub Distinct : List (List ℕ) → Type 0
Distinct [] = Unit
Distinct (u ∷ us) = Fresh u us × Distinct us

-- None of the URLs was seen.
abbrev Apart : List (List ℕ) → List (List ℕ) → Type 0
Apart seen [] = Unit
Apart seen (u ∷ us) = (has_url u seen ≡ false) × Apart seen us

Apart-nil : (us : List (List ℕ)) → Apart [] us
unfolding has_url
Apart-nil [] = tt
Apart-nil (u ∷ us) = (refl, Apart-nil us)

Apart-split :
    (u : List ℕ) (seen us : List (List ℕ)) → Apart (u ∷ seen) us → Fresh u us × Apart seen us
unfolding has_url
Apart-split u seen [] h = (tt, tt)
Apart-split u seen (v ∷ vs) (p, h) =
    let (fresh, apart) = Apart-split u seen vs h in
    let two : (bytes_eq u v ≡ false) × (has_url v seen ≡ false) = ground (arith, p) in
    ((two.0, fresh), (two.1, apart))

Apart-join :
    (u : List ℕ) (seen us : List (List ℕ)) → Fresh u us → Apart seen us → Apart (u ∷ seen) us
unfolding has_url
Apart-join u seen [] f h = tt
Apart-join u seen (v ∷ vs) (p, f) (q, h) = (ground (arith, p, q), Apart-join u seen vs f h)

-- Whether one of the URLs was seen, in the map's order.
repeats : List (List ℕ) → List (List ℕ) → Bool
unfolding has_url
repeats seen [] = false
repeats seen (u ∷ us) = has_url u seen || repeats (u ∷ seen) us

repeats-Distinct : (seen us : List (List ℕ)) → repeats seen us ≡ false → Distinct us × Apart seen us
unfolding repeats
repeats-Distinct seen [] h = (tt, tt)
repeats-Distinct seen (u ∷ us) h =
    let two : (has_url u seen ≡ false) × (repeats (u ∷ seen) us ≡ false) = ground (arith, h) in
    let (distinct, apart) = repeats-Distinct (u ∷ seen) us two.1 in
    let (fresh, rest) = Apart-split u seen us apart in ((fresh, distinct), (two.0, rest))

Distinct-repeats : (seen us : List (List ℕ)) → Distinct us → Apart seen us → repeats seen us ≡ false
unfolding repeats
Distinct-repeats seen [] d a = refl
Distinct-repeats seen (u ∷ us) (fresh, d) (p, a) =
    let rest = Distinct-repeats (u ∷ seen) us d (Apart-join u seen us fresh a) in
    ground (arith, p, rest)

check_urls-repeats :
    (us rest seen : List (List ℕ)) (ms : UrlsMap)
    → ((s : List (List ℕ)) → check_each ms s ≡ repeats s rest)
    → elim (check_urls us seen) [ none ↦ true | some s ↦ check_each ms s ]
      ≡ repeats seen (us ++ rest)
unfolding check_urls repeats
check_urls-repeats [] rest seen ms h = h seen
check_urls-repeats (u ∷ us) rest seen ms h = elim (Bool-cases (has_url u seen)) [
  | inl there ↦ rw there refl
  | inr away ↦ rw away (check_urls-repeats us rest (u ∷ seen) ms h)
]

check_each-repeats :
    (ms : UrlsMap) (seen : List (List ℕ)) → check_each ms seen ≡ repeats seen (all_urls ms)
unfolding check_each repeats
check_each-repeats [] seen = refl
check_each-repeats ((n, us) ∷ ms) seen =
    check_urls-repeats us (all_urls ms) seen ms (check_each-repeats ms)

-- checkDuplicateURL says no exactly where the URLs of the map differ from one another.
check_duplicate_url-Distinct :
    (ms : UrlsMap) → (check_duplicate_url ms ≡ false) ↔ Distinct (all_urls ms)
unfolding check_duplicate_url
check_duplicate_url-Distinct ms = (
  λ h. (repeats-Distinct [] (all_urls ms) (sym (check_each-repeats ms []) ∙ h)).0,
  λ d. check_each-repeats ms [] ∙ Distinct-repeats [] (all_urls ms) d (Apart-nil (all_urls ms)),
)

-- A node that may found its cluster.
pub record MayFound (l : UrlLibrary) (c : RaftNodeConfig) : Type 0 where
  pub urls : List (List ℕ)
  pub listed : urls_of_name c.name c.initial_peer_urls_map ≡ some urls
  pub matches : l.strings_equal (l.sort c.peer_urls) (l.sort urls) ≡ true
  pub distinct : Distinct (all_urls c.initial_peer_urls_map)
  pub set : (length (l.map_text c.initial_peer_urls_map) == 0) ≡ false
  pub room : 4 ≤ c.reserve_data_size

module _ (l : UrlLibrary) (c : RaftNodeConfig) where
  found : verify_bootstrap l c ≡ none → MayFound l c
  unfolding verify_bootstrap has_local_member advertise_matches_cluster
  found h = elim (Option-cases (urls_of_name c.name c.initial_peer_urls_map)) [
    | inl missing ↦ absurd (ground (arith, h, missing))
    | inr (us, listed) ↦
        let matches : l.strings_equal (l.sort c.peer_urls) (l.sort us) ≡ true =
          ground (arith, h, listed) in
        let apart : check_duplicate_url c.initial_peer_urls_map ≡ false =
          ground (arith, h, listed, matches) in
        let set : (length (l.map_text c.initial_peer_urls_map) == 0) ≡ false =
          ground (arith, h, listed, matches, apart) in
        record {
          urls = us;
          listed = listed;
          matches = matches;
          distinct = (check_duplicate_url-Distinct c.initial_peer_urls_map).0 apart;
          set = set;
          room = ground (arith, h, listed, matches, apart, set);
        }
  ]

  -- VerifyBootstrap has no complaint exactly where the initial cluster lists the node with URLs that
  -- equal its peer URLs, the URLs of the cluster differ from one another, its text is not empty and
  -- the reserved size is 4 at least.
  pub verify_bootstrap-MayFound : (verify_bootstrap l c ≡ none) ↔ MayFound l c
  unfolding verify_bootstrap has_local_member advertise_matches_cluster
  verify_bootstrap-MayFound = (
    found,
    λ m.
        let apart = (check_duplicate_url-Distinct c.initial_peer_urls_map).1 m.distinct in
        ground (arith, m.listed, m.matches, apart, m.set, m.room),
  )
