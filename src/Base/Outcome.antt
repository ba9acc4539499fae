-- ===== src/Base/Outcome.antt =====
-- How a call of the program ends. `panic` is a Rust panic: an `unwrap` or `expect` that fails, an
-- index or a slice out of range, an overflow, which cargo's default profile checks. `fault` is
-- undefined behaviour: a read behind a slice through a raw pointer. `Res` is `Result<T, ()>`.
use mathlib.Core.Path.{◌≡◌, refl}
use mathlib.Core.Bool.{Bool, true, false}
use mathlib.Core.Option.{Option, none, some}
use rust_user_net.Base.Tests.{if◌then◌else◌}

pub data Run {ℓ} (A : Type ℓ) : Type ℓ where
  done : A → Run A
  panic : Run A
  fault : Run A

infixl 5 ◌>>=◌ ◌>>◌
abbrev pub ◌>>=◌ {ℓ κ} : {A : Type ℓ} {B : Type κ} → Run A → (A → Run B) → Run B
done a >>= f = f a
panic >>= f = panic
fault >>= f = fault

abbrev pub ◌>>◌ {ℓ} : {B : Type ℓ} → Run (Unit {0}) → Run B → Run B
m >> k = m >>= λ _. k

-- `assert!(b)`, and the tests that the source answers by `panic!`.
abbrev pub check : Bool → Run (Unit {0})
check true = done tt
check false = panic

-- `Option::unwrap` and `Option::expect`.
abbrev pub unwrap {ℓ} : {A : Type ℓ} → Option A → Run A
unwrap none = panic
unwrap (some a) = done a

pub data Res {ℓ} (A : Type ℓ) : Type ℓ where
  ok : A → Res A
  err : Res A

-- `Result::unwrap`.
abbrev pub unwrap_res {ℓ} : {A : Type ℓ} → Res A → Run A
unwrap_res (ok a) = done a
unwrap_res err = panic

pub >>=-eq-done {ℓ κ} :
    {A : Type ℓ} {B : Type κ} (m : Run A) (f : A → Run B) {b : B}
    → (m >>= f) ≡ done b
    → (a : A) × (m ≡ done a) × (f a ≡ done b)
>>=-eq-done (done a) f h = (a, refl, h)
>>=-eq-done panic f h = cc
>>=-eq-done fault f h = cc

pub bind_assoc {ℓ κ μ} :
    {A : Type ℓ} {B : Type κ} {C : Type μ} (m : Run A) (f : A → Run B) (k : B → Run C)
    (h : A → Run C)
    → ((a : A) → h a ≡ f a >>= k)
    → m >>= h ≡ (m >>= f) >>= k
bind_assoc (done a) f k h e = e a
bind_assoc panic f k h e = refl
bind_assoc fault f k h e = refl

pub bind_cong {ℓ κ} :
    {A : Type ℓ} {B : Type κ} (m : Run A) (f g : A → Run B)
    → ((a : A) → f a ≡ g a)
    → m >>= f ≡ m >>= g
bind_cong (done a) f g e = e a
bind_cong panic f g e = refl
bind_cong fault f g e = refl

-- What a call that returns returns satisfies `P`.
abbrev pub Returns {ℓ} : {A : Type ℓ} → (A → Type 0) → Run A → Type 0
Returns P (done a) = P a
Returns P panic = Unit
Returns P fault = Unit

pub Returns-bind {ℓ κ} :
    {A : Type ℓ} {B : Type κ} (P : B → Type 0) (m : Run A) (f : A → Run B)
    → ((a : A) → Returns P (f a))
    → Returns P (m >>= f)
Returns-bind P (done a) f h = h a
Returns-bind P panic f h = tt
Returns-bind P fault f h = tt

pub Returns-then {ℓ κ} :
    {A : Type ℓ} {B : Type κ} (Q : A → Type 0) (P : B → Type 0) (m : Run A) (f : A → Run B)
    → Returns Q m
    → ((a : A) → Q a → Returns P (f a))
    → Returns P (m >>= f)
Returns-then Q P (done a) f q h = h a q
Returns-then Q P panic f q h = tt
Returns-then Q P fault f q h = tt

pub Returns-if {ℓ} :
    {A : Type ℓ} (P : A → Type 0) (b : Bool) (x y : Run A)
    → (b ≡ true → Returns P x)
    → (b ≡ false → Returns P y)
    → Returns P (if b then x else y)
Returns-if P true x y hx hy = hx refl
Returns-if P false x y hx hy = hy refl
