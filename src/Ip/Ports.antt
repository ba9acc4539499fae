-- ===== src/Ip/Ports.antt =====
-- The search for a source port in src/protocols/ip/udp.rs and tcp.rs.
use rust_user_net.Base.{
  ap, ◌∙◌, ◌⊎◌, inl, inr, ℕ, suc, ◌+◌, ◌*◌, ◌/◌, ◌%◌, ◌≤◌, ◌<◌, ◌≡◌, ◌≢◌, Bool, true, false,
  if◌then◌else◌, arith,
}
use rust_user_net.Utils.Byte.{be_to_le_u16}
use rust_user_net.Utils.Byte.Swap.{byte_swap_u16_lem}
use native.Mathlib.Decide.{ℕ_discrete}

-- The number is in the range and not in use.
pub record IsFree (used : ℕ → Bool) (low high port : ℕ) : Type 0 where
  pub above : low ≤ port
  pub below : port < high
  pub unused : used port ≡ false

-- A round of the search, with what the rounds behind it find.
pub round-IsFree :
    (used : ℕ → Bool) (left p rest : ℕ) (b : Bool)
    → used p ≡ b
    → (rest ≢ 0 → IsFree used (p + 1) (p + 1 + left) rest)
    → (if b then rest else p) ≢ 0
    → IsFree used p (p + suc left) (if b then rest else p)
round-IsFree used left p rest true e hr h =
    let r = hr h in
    record { above = omega (arith, r.above); below = omega (arith, r.below); unused = r.unused }
round-IsFree used left p rest false e hr h = record {
  above = omega arith;
  below = omega arith;
  unused = e;
}

-- The number is in the range, and not in use unless every number of the range is.
pub record IsChosen (used : ℕ → Bool) (low high port : ℕ) : Type 0 where
  pub above : low ≤ port
  pub below : port < high
  pub unused : (used port ≡ false) ⊎ ((k : ℕ) → low ≤ k → k < high → used k ≡ true)

between : (k p : ℕ) → p ≤ k → k < p + 1 → k ≡ p
between k p h₁ h₂ = omega arith

-- The last round.
pub last-IsChosen :
    (used : ℕ → Bool) (p : ℕ) (b : Bool) → used p ≡ b → IsChosen used p (p + 1) (if b then p else p)
last-IsChosen used p true e = record {
  above = omega arith;
  below = omega arith;
  unused = inr (λ k h₁ h₂. ap used (between k p h₁ h₂) ∙ e);
}
last-IsChosen used p false e = record { above = omega arith; below = omega arith; unused = inl e }

-- A round, with what the rounds behind it choose.
pub round-IsChosen :
    (used : ℕ → Bool) (left p rest : ℕ) (b : Bool)
    → used p ≡ b
    → IsChosen used (p + 1) (p + 1 + left) rest
    → IsChosen used p (p + suc left) (if b then rest else p)
round-IsChosen used left p rest true e r = record {
  above = omega (arith, r.above);
  below = omega (arith, r.below);
  unused = elim (r.unused) [
    | inl free ↦ inl free
    | inr full ↦ inr (λ k h₁ h₂. elim (ℕ_discrete k p) [
      | yes i ↦ ap used i ∙ e
      | no ne ↦ full k (omega (arith, ne)) (omega arith)
    ])
  ];
}
round-IsChosen used left p rest false e r = record {
  above = omega arith;
  below = omega arith;
  unused = inl e;
}

-- A field of a port is read in the order of the network: a number that is stored as it is has its
-- bytes exchanged.
pub be_to_le_u16-stored : (n : ℕ) → n < 65535 → be_to_le_u16 n ≡ n % 256 * 256 + n / 256
unfolding be_to_le_u16
be_to_le_u16-stored n h = byte_swap_u16_lem n (omega arith)
