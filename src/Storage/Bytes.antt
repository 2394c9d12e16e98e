-- ===== src/Storage/Bytes.antt =====
-- encoding/binary's LittleEndian, as the storage uses it, and its round trips.
use kingbus.Common.{
  ℕ, ◌+◌, ◌*◌, ◌/◌, ◌%◌, ◌^◌, ◌<◌, ◌≡◌, refl, List, [], ◌∷◌, ◌++◌, arith, length, drop,
}

-- PutUint32 of a value below 2 ^ 32
unfoldable pub le32 : ℕ → List ℕ
le32 n = n % 2 ^ 8 ∷ n / 2 ^ 8 % 2 ^ 8 ∷ n / 2 ^ 16 % 2 ^ 8 ∷ n / 2 ^ 24 % 2 ^ 8 ∷ []

-- Uint32 of the first four bytes; shorter slices do not reach it.
unfoldable pub of_le32 : List ℕ → ℕ
of_le32 (a ∷ b ∷ c ∷ d ∷ rest) = a + b * 2 ^ 8 + c * 2 ^ 16 + d * 2 ^ 24
of_le32 _ = 0

unfoldable pub le64 : ℕ → List ℕ
unfolding le32
le64 n = le32 (n % 2 ^ 32) ++ le32 (n / 2 ^ 32)

unfoldable pub of_le64 : List ℕ → ℕ
unfolding of_le32
of_le64 bs = of_le32 bs + 2 ^ 32 * of_le32 (drop 4 bs)

pub length-le32 : (n : ℕ) → length (le32 n) ≡ 4
unfolding le32
length-le32 n = refl

pub of_le32-le32 : (n : ℕ) → n < 2 ^ 32 → of_le32 (le32 n) ≡ n
unfolding le32 of_le32
of_le32-le32 n h = omega arith

pub of_le64-le64 : (n : ℕ) → n < 2 ^ 64 → of_le64 (le64 n) ≡ n
unfolding le64 of_le64
of_le64-le64 n h = omega arith
