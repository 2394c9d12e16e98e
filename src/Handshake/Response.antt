-- ===== src/Handshake/Response.antt =====
-- readHandshakeResponse: whom it lets in, and which packets it does not survive.
use kingbus.Common.{
  ℕ, ◌+◌, ◌^◌, ◌<◌, ◌≡◌, refl, sym, ap, ◌∙◌, true, none, some, List, [], ◌∷◌, ◌++◌, append_assoc,
  arith, length, length-append, drop, drop-length-append, get_elem?, get_elem?-middle, ltb, le→ltb,
  ◌==◌, if◌then◌else◌, Bool-cases, inl, inr, slice, slice_from, slice-at, bytes_eq, no_such_user,
  access_denied, ok, err, panic, ◌>>=◌,
}
use kingbus.Storage.Bytes.{le32, of_le32-le32, length-le32}
use kingbus.Handshake.{
  index_byte, text_at, string_at, or_connect_with_db, read_db, check_auth, read_handshake_response,
}

-- No byte of the text is 0.
abbrev pub IsText : List ℕ → Type 0
IsText [] = Unit
IsText (x ∷ xs) = (0 < x) × IsText xs

index_byte-text : (s rest : List ℕ) → IsText s → index_byte (s ++ 0 ∷ rest) 0 ≡ some (length s)
unfolding index_byte
index_byte-text [] rest h = refl
index_byte-text (x ∷ xs) rest (p, h) = ground (arith, p, index_byte-text xs rest h)

index_byte-none : (s : List ℕ) → IsText s → index_byte s 0 ≡ none
unfolding index_byte
index_byte-none [] h = refl
index_byte-none (x ∷ xs) (p, h) = ground (arith, p, index_byte-none xs h)

slice_from-append :
    (pre post : List ℕ) (n : ℕ) → n ≡ length pre → slice_from (pre ++ post) n ≡ ok post
slice_from-append pre post n h = rw (
  h,
  le→ltb (length (pre ++ post)) (length pre) (omega (arith, length-append pre post)),
  drop-length-append pre post,
)

string_at-text :
    (v pre s rest : List ℕ) (n : ℕ)
    → v ≡ pre ++ (s ++ 0 ∷ rest)
    → n ≡ length pre
    → IsText s
    → string_at v n ≡ ok s
unfolding string_at text_at
string_at-text v pre s rest n e at h =
    ap (λ r. r >>= λ x. text_at v n (index_byte x 0))
      (ap (λ w. slice_from w n) e ∙ slice_from-append pre (s ++ 0 ∷ rest) n at)
    ∙ (ap (text_at v n) (index_byte-text s rest h)
        ∙ slice-at v pre s (0 ∷ rest) n (n + length s) e at (omega (arith, at)))

string_at-unterminated :
    (v pre s : List ℕ) (n : ℕ) → v ≡ pre ++ s → n ≡ length pre → IsText s → string_at v n ≡ panic
unfolding string_at text_at
string_at-unterminated v pre s n e at h =
    ap (λ r. r >>= λ x. text_at v n (index_byte x 0))
      (ap (λ w. slice_from w n) e ∙ slice_from-append pre s n at)
    ∙ ap (text_at v n) (index_byte-none s h)

-- The bounds of slices that are inside.
inside :
    (v pre s rest : List ℕ) (n : ℕ)
    → v ≡ pre ++ (s ++ rest)
    → n ≡ length pre
    → slice v n (n + length s) ≡ ok s
inside v pre s rest n e at = slice-at v pre s rest n (n + length s) e at (omega (arith, at))

or_connect_with_db-positive : (x : ℕ) → ltb 0 (or_connect_with_db x) ≡ true
unfolding or_connect_with_db
or_connect_with_db-positive x = ground arith

-- Nothing, or a text with its end.
pub data IsDatabase : List ℕ → Type 0 where
  none_given : IsDatabase []
  given : (name more : List ℕ) → IsText name → IsDatabase (name ++ 0 ∷ more)

read_db-ok :
    (c n : ℕ) (v pre rest : List ℕ)
    → v ≡ pre ++ rest
    → n ≡ length pre
    → IsDatabase rest
    → read_db c v n ≡ ok c
unfolding read_db
read_db-ok c n v pre rest e at none_given =
    let here = ap (λ w. slice_from w n) e ∙ slice_from-append pre [] n at in
    rw (here, or_connect_with_db-positive c) refl
read_db-ok c n v pre rest e at (given name more h) =
    let here = ap (λ w. slice_from w n) e ∙ slice_from-append pre (name ++ 0 ∷ more) n at in
    let db = string_at-text v pre name more n e at h in
    elim (Bool-cases (length (name ++ 0 ∷ more) == 0)) [
      | inl empty ↦ rw (here, or_connect_with_db-positive c, empty) refl
      | inr named ↦ rw (here, or_connect_with_db-positive c, named, db) refl
    ]

-- What stands behind the packet stands behind its last part.
longer :
    (v beyond pre s rest : List ℕ)
    → v ≡ pre ++ (s ++ rest)
    → v ++ beyond ≡ pre ++ (s ++ (rest ++ beyond))
longer v beyond pre s rest e =
    ap (λ w. w ++ beyond) e
    ∙ (append_assoc pre (s ++ rest) beyond ∙ ap (λ w. pre ++ w) (append_assoc s rest beyond))

check_auth_lem :
    (beyond expected pre auth rest v : List ℕ) (c n : ℕ)
    → v ≡ pre ++ (length auth ∷ (auth ++ rest))
    → n ≡ length pre
    → IsDatabase rest
    → check_auth beyond expected c v n
      ≡ (if bytes_eq auth expected then ok c else err access_denied)
unfolding check_auth
check_auth_lem beyond expected pre auth rest v c n e at h =
    let one = length auth ∷ [] in
    let len : get_elem? v n ≡ some (length auth) =
      ap (λ w. get_elem? w n) e
      ∙ (ap (get_elem? (pre ++ (length auth ∷ (auth ++ rest)))) at
          ∙ get_elem?-middle pre (length auth) (auth ++ rest)) in
    let behind : v ≡ (pre ++ one) ++ (auth ++ rest) =
      e ∙ sym (append_assoc pre one (auth ++ rest)) in
    let start : n + 1 ≡ length (pre ++ one) = omega (arith, at, length-append pre one) in
    let word : slice (v ++ beyond) (n + 1) (n + 1 + length auth) ≡ ok auth =
      slice-at (v ++ beyond) (pre ++ one) auth (rest ++ beyond) (n + 1) (n + 1 + length auth)
        (longer v beyond (pre ++ one) auth rest behind) start (omega (arith, start)) in
    let db : read_db c v (n + 1 + length auth) ≡ ok c =
      read_db-ok c (n + 1 + length auth) v ((pre ++ one) ++ auth) rest
        (behind ∙ sym (append_assoc (pre ++ one) auth rest))
        (omega (arith, start, length-append (pre ++ one) auth)) h in
    elim (Bool-cases (bytes_eq auth expected)) [
      | inl same ↦ rw (len, word, same, db) refl
      | inr other ↦ rw (len, word, other) refl
    ]

-- A client's response: four bytes of capabilities, 28 bytes that are skipped, the user, and the
-- password behind its length.
abbrev pub response : ℕ → List ℕ → List ℕ → List ℕ → List ℕ → List ℕ
response capability skipped user auth rest =
    le32 capability ++ (skipped ++ (user ++ 0 ∷ (length auth ∷ (auth ++ rest))))

module _ (calc_password : List ℕ → List ℕ → List ℕ) (user salt password beyond : List ℕ) where
  -- A well-formed response, with a capability of 32 bits, 28 bytes that are skipped, a user name
  -- without a 0, and behind the password nothing or a text that ends in a 0: another user is refused
  -- as unknown, another password is refused, and else the client's capability is returned.
  pub read_handshake_response_lem :
      (capability : ℕ) (skipped name auth rest : List ℕ)
      → capability < 2 ^ 32
      → length skipped ≡ 28
      → IsText name
      → IsDatabase rest
      → read_handshake_response calc_password user salt password beyond
          (response capability skipped name auth rest)
        ≡ (if bytes_eq user name
            then (if bytes_eq auth (calc_password salt password)
                then ok capability
                else err access_denied)
            else err no_such_user)
  unfolding read_handshake_response
  read_handshake_response_lem capability skipped name auth rest bound size text h =
      let v = response capability skipped name auth rest in
      let behind = length auth ∷ (auth ++ rest) in
      let front = le32 capability ++ skipped in
      let split : v ≡ front ++ (name ++ 0 ∷ behind) =
        sym (append_assoc (le32 capability) skipped (name ++ 0 ∷ behind)) in
      let four : slice (v ++ beyond) 0 4 ≡ ok (le32 capability) =
        slice-at (v ++ beyond) [] (le32 capability) ((skipped ++ (name ++ 0 ∷ behind)) ++ beyond) 0
          4 (longer v beyond [] (le32 capability) (skipped ++ (name ++ 0 ∷ behind)) refl) refl
          (omega (arith, length-le32 capability)) in
      let thirty_two : 32 ≡ length front =
        omega (arith, size, length-append (le32 capability) skipped, length-le32 capability) in
      let who : string_at v 32 ≡ ok name =
        string_at-text v front name behind 32 split thirty_two text in
      let till : v ≡ (front ++ (name ++ 0 ∷ [])) ++ behind =
        split
        ∙ (ap (λ w. front ++ w) (sym (append_assoc name (0 ∷ []) behind))
            ∙ sym (append_assoc front (name ++ 0 ∷ []) behind)) in
      let auths =
        check_auth_lem beyond (calc_password salt password) (front ++ (name ++ 0 ∷ [])) auth rest v
          capability (32 + length name + 1) till
          (omega
            (arith, thirty_two, length-append front (name ++ 0 ∷ []), length-append name (0 ∷ [])))
          h in
      elim (Bool-cases (bytes_eq user name)) [
        | inl same ↦ rw (four, who, same, of_le32-le32 capability bound, auths) refl
        | inr other ↦ rw (four, who, other) refl
      ]

  -- A packet with no 0 behind its first 32 bytes, a shorter one too, is a panic, before user or
  -- password are looked at, whatever the array of the packet has behind its end.
  pub read_handshake_response-panics :
      (v : List ℕ)
      → IsText (drop 32 v)
      → read_handshake_response calc_password user salt password beyond v ≡ panic
  unfolding read_handshake_response string_at text_at
  read_handshake_response-panics v h =
      let none_found = index_byte-none (drop 32 v) h in
      elim (Bool-cases (ltb (length (v ++ beyond)) 4)) [
        | inl short ↦ rw short refl
        | inr four ↦ elim (Bool-cases (ltb (length v) 32)) [
          | inl short ↦ rw (four, short) refl
          | inr long ↦ rw (four, long, none_found) refl
        ]
      ]
