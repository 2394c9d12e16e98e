-- ===== src/Common/Slices.antt =====
-- Go's slice expressions and `copy` over lists; bounds out of range are a panic.
use Prim.Native.Nat.{ℕ, ◌+◌, ◌-◌, ◌≤◌}
use mathlib.Core.Path.{◌≡◌, ap, ◌∙◌}
use mathlib.Core.List.{List, ◌++◌}
use native.Mathlib.Omega.{arith}
use kingbus.Common.Tests.{ltb, le→ltb, if◌then◌else◌}
use kingbus.Common.Lists.{
  length, take, drop, length-append, take-length-append, drop-length-append, drop-drop,
}
use kingbus.Common.Outcome.{Result, ok, panic}

module _ {ℓ} {A : Type ℓ} where
  -- s[a:]
  abbrev pub slice_from : List A → ℕ → Result (List A)
  slice_from s a = if ltb (length s) a then panic else ok (drop a s)

  -- s[a:b]
  abbrev pub slice : List A → ℕ → ℕ → Result (List A)
  slice s a b =
      if ltb (length s) b then panic else if ltb b a then panic else ok (take (b - a) (drop a s))

  -- copy(s[a:a+len(bs)], bs)
  abbrev pub copy_at : List A → ℕ → List A → Result (List A)
  copy_at s a bs =
      if ltb (length s) (a + length bs)
      then panic
      else ok (take a s ++ (bs ++ drop (a + length bs) s))

  pub slice_lem :
      (s : List A) (a n : ℕ) → a + n ≤ length s → slice s a (a + n) ≡ ok (take n (drop a s))
  slice_lem s a n h =
      rw (le→ltb (length s) (a + n) h, le→ltb (a + n) a (omega arith))
        (ap (λ k. ok (take k (drop a s))) (omega arith))

  pub slice-middle :
      (pre mid post : List A)
      → slice (pre ++ (mid ++ post)) (length pre) (length pre + length mid) ≡ ok mid
  slice-middle pre mid post =
      slice_lem (pre ++ (mid ++ post)) (length pre) (length mid)
        (omega (arith, length-append pre (mid ++ post), length-append mid post))
      ∙ rw (drop-length-append, take-length-append)

  pub copy_at-middle :
      (pre old new post : List A)
      → length new ≡ length old
      → copy_at (pre ++ (old ++ post)) (length pre) new ≡ ok (pre ++ (new ++ post))
  copy_at-middle pre old new post h =
      rw
        (le→ltb (length (pre ++ (old ++ post))) (length pre + length new)
          (omega (arith, length-append pre (old ++ post), length-append old post)))
        (rw (take-length-append, ← drop-drop, drop-length-append, h, drop-length-append))

  pub slice-at :
      (s pre mid post : List A) (p q : ℕ)
      → s ≡ pre ++ (mid ++ post)
      → p ≡ length pre
      → q ≡ length pre + length mid
      → slice s p q ≡ ok mid
  slice-at s pre mid post p q e ep eq = rw (e, ep, eq) (slice-middle pre mid post)

  pub slice-prefix : (s : List A) (n : ℕ) → n ≤ length s → slice s 0 n ≡ ok (take n s)
  slice-prefix s n h =
      rw (le→ltb (length s) n h, le→ltb n 0 (omega arith)) (ap (λ k. ok (take k s)) (omega arith))
