-- ===== src/Concrete/Serial.antt =====
-- Values as lists of numbers, read back from the front.
use kingbus.Common.{
  ℕ, zero, suc, ◌≡◌, refl, Bool, true, false, Option, none, some, List, [], ◌∷◌, length,
}
use kingbus.Membership.{Member, RaftCluster, Json, IsJson}

pub record Serial (A : Type 0) : Type 0 where
  pub write : A → List ℕ → List ℕ
  pub read : List ℕ → Option (A × List ℕ)
  pub read-write : (a : A) (rest : List ℕ) → read (write a rest) ≡ some (a, rest)

abbrev and_then : {A B : Type 0} → Option A → (A → Option B) → Option B
and_then none f = none
and_then (some a) f = f a

number : Serial ℕ
number = record {
  write = λ n rest. n ∷ rest;
  read = λ s. elim s [ [] ↦ none | n ∷ rest ↦ some (n, rest) ];
  read-write = λ n rest. refl;
}

abbrev pair_read : {A B : Type 0} → Serial A → Serial B → List ℕ → Option ((A × B) × List ℕ)
pair_read a b s = and_then (a.read s) λ p. and_then (b.read p.1) λ q. some ((p.0, q.0), q.1)

pair : {A B : Type 0} → Serial A → Serial B → Serial (A × B)
pair a b = record {
  write = λ p rest. a.write p.0 (b.write p.1 rest);
  read = λ s. pair_read a b s;
  read-write = λ p rest. rw (a.read-write p.0 (b.write p.1 rest), b.read-write p.1 rest) refl;
}

abbrev write_all : {A : Type 0} → Serial A → List A → List ℕ → List ℕ
write_all a [] rest = rest
write_all a (x ∷ xs) rest = a.write x (write_all a xs rest)

abbrev read_all : {A : Type 0} → Serial A → ℕ → List ℕ → Option (List A × List ℕ)
read_all a zero s = some ([], s)
read_all a (suc n) s =
    and_then (a.read s) λ p. and_then (read_all a n p.1) λ q. some (p.0 ∷ q.0, q.1)

read_all-write_all :
    {A : Type 0} (a : Serial A) (xs : List A) (rest : List ℕ)
    → read_all a (length xs) (write_all a xs rest) ≡ some (xs, rest)
read_all-write_all a [] rest = refl
read_all-write_all a (x ∷ xs) rest =
    rw (a.read-write x (write_all a xs rest), read_all-write_all a xs rest) refl

list_of : {A : Type 0} → Serial A → Serial (List A)
list_of a = record {
  write = λ xs rest. length xs ∷ write_all a xs rest;
  read = λ s. elim s [ [] ↦ none | n ∷ rest ↦ read_all a n rest ];
  read-write = λ xs rest. read_all-write_all a xs rest;
}

-- A type that is made of another one.
like :
    {A B : Type 0} (to : A → B) (from : B → A) → ((a : A) → from (to a) ≡ a) → Serial B → Serial A
like to from back b = record {
  write = λ a rest. b.write (to a) rest;
  read = λ s. and_then (b.read s) λ p. some (from p.0, p.1);
  read-write = λ a rest. rw (b.read-write (to a) rest, back a) refl;
}

abbrev flag : Bool → ℕ
flag true = 1
flag false = 0

abbrev flagged : ℕ → Bool
flagged zero = false
flagged (suc n) = true

flagged-flag : (b : Bool) → flagged (flag b) ≡ b
flagged-flag true = refl
flagged-flag false = refl

bool : Serial Bool
bool = like flag flagged flagged-flag number

texts : Serial (List (List ℕ))
texts = list_of (list_of number)

member : Serial Member
member =
    like (λ m. (m.id, (m.raft_attributes.peer_urls, (m.attributes.name, m.attributes.admin_urls))))
      (λ p. record {
        id = p.0;
        raft_attributes = record { peer_urls = p.1.0 };
        attributes = record { name = p.1.1.0; admin_urls = p.1.1.1 };
      })
      (λ m. refl) (pair number (pair texts (pair (list_of number) texts)))

cluster : Serial RaftCluster
cluster =
    like (λ c. (c.id, (c.members_map, c.removed_map)))
      (λ p. record { id = p.0; members_map = p.1.0; removed_map = p.1.1 }) (λ c. refl)
      (pair number (pair (list_of (pair number member)) (list_of (pair number bool))))

-- The value at the front.
abbrev value_of : {A : Type 0} → Serial A → List ℕ → Option A
value_of a s = and_then (a.read s) λ p. some p.0

value_of-write : {A : Type 0} (a : Serial A) (x : A) → value_of a (a.write x []) ≡ some x
value_of-write a x = rw (a.read-write x []) refl

pub serial_json : Json
serial_json = record {
  encode_cluster = λ c. cluster.write c [];
  decode_cluster = λ s. value_of cluster s;
  encode_member = λ m. member.write m [];
  decode_member = λ s. value_of member s;
}

pub serial_json-IsJson : IsJson serial_json
unfolding serial_json
serial_json-IsJson = record {
  cluster_round_trip = λ c. value_of-write cluster c;
  member_round_trip = λ m. value_of-write member m;
}
