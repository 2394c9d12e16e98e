-- ===== src/Gtids.antt =====
-- The sets of global transaction ids of github.com/siddontang/go-mysql, as the code uses them: the
-- decoders and operations are parameters, over a type `G` of sets and a type `U` of the set of one
-- server's ids.
use kingbus.Common.{ℕ, ◌≡◌, Bool, true, Option, some, List}

pub record Gtids (G U : Type 0) : Type 0 where
  pub empty : G
  pub decode : List ℕ → Option G  -- DecodeMysqlGTIDSet
  pub encode : G → List ℕ
  pub parse : List ℕ → Option G  -- ParseGTIDSet, of a text
  pub to_string : G → List ℕ
  pub update : List ℕ → G → Option G  -- Update, with the ids of a text
  pub equal : G → G → Bool
  pub contain : G → G → Bool
  pub sets : G → List (List ℕ × U)  -- Sets, by the server's uuid
  pub has_uuid : List ℕ → G → Bool
  pub add_set : U → G → G

pub record IsGtids {G U : Type 0} (g : Gtids G U) : Type 0 where
  pub round_trip : (x : G) → g.decode (g.encode x) ≡ some x
  pub equal_refl : (x : G) → g.equal x x ≡ true
