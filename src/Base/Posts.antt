-- ===== src/Base/Posts.antt =====
-- Postconditions of calls, with a rule for each form of a `do` block.
use mathlib.Core.Path.{◌≡◌, refl}
use mathlib.Core.Bool.{Bool, true, false}
use rust_user_net.Base.Tests.{if◌then◌else◌}
use rust_user_net.Base.Outcome.{Run, done, panic, fault, check, ◌>>=◌, ◌>>◌, Returns}

-- What the call returns, if it returns, satisfies `P`. A record keeps `P` and the call in view.
pub record Ensures {ℓ} {A : Type ℓ} (P : A → Type 0) (m : Run A) : Type 0 where
  pub holds : Returns P m

module _ {ℓ} {A : Type ℓ} where
  pub Ensures-done : {P : A → Type 0} {a : A} → P a → Ensures P (done a)
  Ensures-done h = record { holds = h }

  pub Ensures-panic : {P : A → Type 0} → Ensures P panic
  Ensures-panic = record { holds = tt }

  pub Ensures-if :
      {P : A → Type 0} {x y : Run A} (b : Bool)
      → Ensures P x
      → Ensures P y
      → Ensures P (if b then x else y)
  Ensures-if true hx hy = hx
  Ensures-if false hx hy = hy

  -- The branches know the test.
  pub Ensures-test :
      {P : A → Type 0} {x y : Run A} (b : Bool)
      → (b ≡ true → Ensures P x)
      → (b ≡ false → Ensures P y)
      → Ensures P (if b then x else y)
  Ensures-test true hx hy = hx refl
  Ensures-test false hx hy = hy refl

  pub Ensures-weaken :
      {P Q : A → Type 0} {m : Run A} → Ensures P m → ((a : A) → P a → Q a) → Ensures Q m
  Ensures-weaken {m = done a} h f = record { holds = f a h.holds }
  Ensures-weaken {m = panic} h f = record { holds = tt }
  Ensures-weaken {m = fault} h f = record { holds = tt }

module _ {ℓ κ} {A : Type ℓ} {B : Type κ} where
  -- The result of the first call is used, with nothing known about it.
  pub Ensures-bind :
      {P : B → Type 0} {f : A → Run B} (m : Run A)
      → ((a : A) → Ensures P (f a))
      → Ensures P (m >>= f)
  Ensures-bind (done a) h = h a
  Ensures-bind panic h = record { holds = tt }
  Ensures-bind fault h = record { holds = tt }

  pub Ensures-then :
      {Q : A → Type 0} {P : B → Type 0} {f : A → Run B} (m : Run A)
      → Ensures Q m
      → ((a : A) → Q a → Ensures P (f a))
      → Ensures P (m >>= f)
  Ensures-then (done a) q h = h a q.holds
  Ensures-then panic q h = record { holds = tt }
  Ensures-then fault q h = record { holds = tt }

-- What is known of the result of a call that returned.
pub Ensures-returned {ℓ} :
    {A : Type ℓ} {P : A → Type 0} {m : Run A} (a : A) → Ensures P m → m ≡ done a → P a
Ensures-returned {P} a h e = let h' : Ensures P (done a) = rw (← e) h in h'.holds

-- A check that fails does not return.
pub Ensures-check {κ} :
    {B : Type κ} {P : B → Type 0} {m : Run B} (b : Bool)
    → (b ≡ true → Ensures P m)
    → Ensures P (check b >> m)
Ensures-check true h = h refl
Ensures-check false h = record { holds = tt }
