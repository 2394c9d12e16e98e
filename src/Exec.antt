-- ===== src/Exec.antt =====
-- Operations on a state that may fail.
use kingbus.Common.{◌≡◌, refl, ◌∙◌, Option, none, some, Error, Result, ok, err, panic}

-- An operation returns its result beside the state that it leaves, after an error too.
abbrev pub Exec : Type 0 → Type 0 → Type 0
Exec S A = S → Result A × S

abbrev pub continue : {S A B : Type 0} → Result A × S → (A → Exec S B) → Result B × S
continue (ok a, s) f = f a s
continue (err e, s) f = (err e, s)
continue (panic, s) f = (panic, s)

infixl 5 ◌>>=◌ ◌>>◌
abbrev pub ◌>>=◌ : {S A B : Type 0} → Exec S A → (A → Exec S B) → Exec S B
◌>>=◌ m f s = continue (m s) f

abbrev pub ◌>>◌ : {S A B : Type 0} → Exec S A → Exec S B → Exec S B
m >> k = m >>= λ _. k

abbrev pub pure : {S A : Type 0} → A → Exec S A
pure a s = (ok a, s)

abbrev pub raise : {S A : Type 0} → Error → Exec S A
raise e s = (err e, s)

-- A pure computation that may end the run.
abbrev pub lift : {S A : Type 0} → Result A → Exec S A
lift r s = (r, s)

abbrev pub get : {S : Type 0} → Exec S S
get s = (ok s, s)

abbrev pub put : {S : Type 0} → S → Exec S (Unit {0})
put t s = (ok tt, t)

-- log.Fatalf where a value is missing.
abbrev pub must : {A : Type 0} → Option A → Result A
must none = panic
must (some a) = ok a

module _ {S A B : Type 0} where
  -- A run that has returned returned at its first step.
  pub bind_returned :
      (r : Result A) (u : S) (f : A → Exec S B) (v : B) (t : S)
      → continue (r, u) f ≡ (ok v, t)
      → (a : A) × ((r ≡ ok a) × (f a u ≡ (ok v, t)))
  bind_returned (ok a) u f v t h = (a, (refl, h))
  bind_returned (err e) u f v t h = cc
  bind_returned panic u f v t h = cc

  pub first_returned :
      (p : Result A × S) (f : A → Exec S B) (v : B) (t : S)
      → continue p f ≡ (ok v, t)
      → (a : A) × ((u : S) × ((p ≡ (ok a, u)) × (f a u ≡ (ok v, t))))
  first_returned (ok a, u) f v t h = (a, (u, (refl, h)))
  first_returned (err e, u) f v t h = cc
  first_returned (panic, u) f v t h = cc

-- An operation that leaves a part of the state alone, after an error too.
abbrev pub Leaves : {S A X : Type 0} → (S → X) → Exec S A → Type 0
Leaves {S} f m = (s : S) → f (m s).1 ≡ f s

module _ {S A B X : Type 0} (f : S → X) where
  Leaves-continue :
      (p : Result A × S) (k : A → Exec S B)
      → ((a : A) → Leaves f (k a))
      → f (continue p k).1 ≡ f p.1
  Leaves-continue (ok a, s) k h = h a s
  Leaves-continue (err e, s) k h = refl
  Leaves-continue (panic, s) k h = refl

  pub Leaves-bind :
      (m : Exec S A) (k : A → Exec S B)
      → Leaves f m
      → ((a : A) → Leaves f (k a))
      → Leaves f (m >>= k)
  Leaves-bind m k h g s = Leaves-continue (m s) k g ∙ h s
