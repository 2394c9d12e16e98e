-- ===== src/Concrete/Sets.antt =====
-- Gtid sets that are lists of numbers.
use kingbus.Common.{
  ℕ, refl, Bool, true, false, ◌&&◌, ◌||◌, some, List, [], ◌∷◌, ◌++◌, bytes_eq, bytes_eq_refl, ◌==◌,
  map,
}
use kingbus.Gtids.{Gtids, IsGtids}

has : ℕ → List ℕ → Bool
has n [] = false
has n (m ∷ ms) = m == n || has n ms

has_all : List ℕ → List ℕ → Bool
unfolding has
has_all s [] = true
has_all s (n ∷ ns) = has n s && has_all s ns

unfoldable pub number_sets : Gtids (List ℕ) ℕ
unfolding has has_all
number_sets = record {
  empty = [];
  decode = λ v. some v;
  encode = λ x. x;
  parse = λ v. some v;
  to_string = λ x. x;
  update = λ v x. some (x ++ v);
  equal = λ x y. bytes_eq x y;
  contain = λ x y. has_all x y;
  sets = λ x. map (λ n. (n ∷ [], n)) x;
  has_uuid = λ u x. has_all x u;
  add_set = λ n x. n ∷ x;
}

pub number_sets-IsGtids : IsGtids number_sets
unfolding number_sets
number_sets-IsGtids = record { round_trip = λ x. refl; equal_refl = λ x. bytes_eq_refl x }
