-- ===== src/Tcp/Select.antt =====
-- What `select` of src/protocols/ip/tcp.rs answers.
use rust_user_net.Base.{
  ℕ, suc, ◌+◌, ◌≡◌, refl, sym, ap, ap₂, List, [], ◌∷◌, Option, none, some, Bool, true, false, ◌&&◌,
  ◌||◌, ◌⊎◌, inl, inr, if◌then◌else◌, get_elem?, All, arith,
}
use mathlib.Core.Option.{some-injective, some-ne-none}
use rust_user_net.Ip.Route.{IpEndpoint}
use rust_user_net.Tcp.Types.{TcpPcb}
use rust_user_net.Tcp.Pcbs.{select_from, select, local_fits, remote_fits, listens}

-- The local endpoint fits, and the remote one does or the block listens.
abbrev pub fits : TcpPcb → IpEndpoint → Option IpEndpoint → Bool
fits pcb local remote = local_fits pcb local && (remote_fits pcb remote || listens pcb)

module _ (local : IpEndpoint) (remote : Option IpEndpoint) where
  abbrev Misses : TcpPcb → Type 0
  Misses pcb = fits pcb local remote ≡ false

  -- The block is not one of a connection from the remote endpoint.
  abbrev Unconnected : TcpPcb → Type 0
  Unconnected pcb = local_fits pcb local && remote_fits pcb remote ≡ false

  -- The block at a place behind `i` that is answered: it fits, and if its remote endpoint does not,
  -- there is no block of a connection.
  IsFound : ℕ → List TcpPcb → ℕ → Type 0
  IsFound i pcbs j =
      (k : ℕ) × (pcb : TcpPcb) × (j ≡ i + k)
      × (get_elem? pcbs k ≡ some pcb)
      × (fits pcb local remote ≡ true)
      × ((remote_fits pcb remote ≡ true) ⊎ All Unconnected pcbs)

  -- The answer of the loop from place `i` on, with the listening block that was seen before.
  FromAnswer : ℕ → Option ℕ → List TcpPcb → Option ℕ → Type 0
  FromAnswer i listening pcbs none = (listening ≡ none) × All Misses pcbs
  FromAnswer i listening pcbs (some j) =
      ((listening ≡ some j) × All Unconnected pcbs) ⊎ IsFound i pcbs j

  found_first :
      (i : ℕ) (listening : Option ℕ) (pcb : TcpPcb) (pcbs : List TcpPcb)
      → fits pcb local remote ≡ true
      → remote_fits pcb remote ≡ true
      → FromAnswer i listening (pcb ∷ pcbs) (some i)
  unfolding FromAnswer IsFound
  found_first i listening pcb pcbs h hr = inr (0, pcb, omega arith, refl, h, inl hr)

  IsFound-later :
      (i j : ℕ) (pcb : TcpPcb) (pcbs : List TcpPcb)
      → Unconnected pcb
      → IsFound (i + 1) pcbs j
      → IsFound i (pcb ∷ pcbs) j
  unfolding IsFound
  IsFound-later i j pcb pcbs u (k, found, e, at, good, inl hr) =
      (suc k, found, omega (arith, e), at, good, inl hr)
  IsFound-later i j pcb pcbs u (k, found, e, at, good, inr us) =
      (suc k, found, omega (arith, e), at, good, inr (u, us))

  -- A block that fits, with another remote address: it listens, and the rest may have a better one.
  found_listening :
      (i : ℕ) (listening : Option ℕ) (pcb : TcpPcb) (pcbs : List TcpPcb) (r : Option ℕ)
      → fits pcb local remote ≡ true
      → Unconnected pcb
      → FromAnswer (i + 1) (some i) pcbs r
      → FromAnswer i listening (pcb ∷ pcbs) r
  unfolding FromAnswer IsFound
  found_listening i listening pcb pcbs none h u a = absurd (some-ne-none i a.0)
  found_listening i listening pcb pcbs (some j) h u (inl (e, us)) =
      inr (0, pcb, omega (arith, some-injective i j e), refl, h, inr (u, us))
  found_listening i listening pcb pcbs (some j) h u (inr f) = inr (IsFound-later i j pcb pcbs u f)

  passed_over :
      (i : ℕ) (listening : Option ℕ) (pcb : TcpPcb) (pcbs : List TcpPcb) (r : Option ℕ)
      → fits pcb local remote ≡ false
      → Unconnected pcb
      → FromAnswer (i + 1) listening pcbs r
      → FromAnswer i listening (pcb ∷ pcbs) r
  unfolding FromAnswer IsFound
  passed_over i listening pcb pcbs none h u a = (a.0, (h, a.1))
  passed_over i listening pcb pcbs (some j) h u (inl (e, us)) = inl (e, (u, us))
  passed_over i listening pcb pcbs (some j) h u (inr f) = inr (IsFound-later i j pcb pcbs u f)

  -- A round of the loop, with its tests known.
  round :
      (a b c : Bool) (i : ℕ) (listening : Option ℕ) (pcb : TcpPcb) (pcbs : List TcpPcb)
      (rest : Option ℕ → Option ℕ)
      → local_fits pcb local ≡ a
      → listens pcb ≡ b
      → remote_fits pcb remote ≡ c
      → ((l : Option ℕ) → FromAnswer (i + 1) l pcbs (rest l))
      → FromAnswer i listening
          (pcb ∷ pcbs)
          (if a && c then some i else rest (if a && b then some i else listening))
  round false b c i listening pcb pcbs rest ea eb ec h =
      passed_over i listening pcb pcbs _ (ap (λ a. a && (remote_fits pcb remote || listens pcb)) ea)
        (ap (λ a. a && remote_fits pcb remote) ea) (h listening)
  round true b true i listening pcb pcbs rest ea eb ec h =
      found_first i listening pcb pcbs (ap₂ (λ a c. a && (c || listens pcb)) ea ec) ec
  round true true false i listening pcb pcbs rest ea eb ec h =
      found_listening i listening pcb pcbs _ (every true ea eb ec) (ap₂ ◌&&◌ ea ec) (h (some i))
    where
      every :
          (b : Bool)
          → local_fits pcb local ≡ true
          → listens pcb ≡ b
          → remote_fits pcb remote ≡ false
          → fits pcb local remote ≡ b
      every b ea eb ec = ap₂ ◌&&◌ ea (ap₂ ◌||◌ ec eb)
  round true false false i listening pcb pcbs rest ea eb ec h =
      passed_over i listening pcb pcbs _ (ap₂ ◌&&◌ ea (ap₂ ◌||◌ ec eb)) (ap₂ ◌&&◌ ea ec)
        (h listening)

  select_from-FromAnswer :
      (i : ℕ) (listening : Option ℕ) (pcbs : List TcpPcb)
      → FromAnswer i listening pcbs (select_from i listening pcbs local remote)
  unfolding select_from FromAnswer
  select_from-FromAnswer i none [] = (refl, tt)
  select_from-FromAnswer i (some j) [] = inl (refl, tt)
  select_from-FromAnswer i listening (pcb ∷ pcbs) =
      round (local_fits pcb local) (listens pcb) (remote_fits pcb remote) i listening pcb pcbs
        (λ l. select_from (i + 1) l pcbs local remote) refl refl refl
        (λ l. select_from-FromAnswer (i + 1) l pcbs)

-- What is answered for an endpoint and a remote endpoint, or for none.
abbrev pub Answer : List TcpPcb → IpEndpoint → Option IpEndpoint → Option ℕ → Type 0
Answer pcbs local remote none = All (λ pcb. fits pcb local remote ≡ false) pcbs
Answer pcbs local remote (some j) =
    (pcb : TcpPcb) × (get_elem? pcbs j ≡ some pcb)
    × (fits pcb local remote ≡ true)
    × ((remote_fits pcb remote ≡ true)
        ⊎ All (λ other. local_fits other local && remote_fits other remote ≡ false) pcbs)

from_zero : (j k : ℕ) → j ≡ 0 + k → j ≡ k
from_zero j k e = omega (arith, e)

from_start :
    (pcbs : List TcpPcb) (local : IpEndpoint) (remote : Option IpEndpoint) (r : Option ℕ)
    → FromAnswer local remote 0 none pcbs r
    → Answer pcbs local remote r
unfolding FromAnswer IsFound
from_start pcbs local remote none a = a.1
from_start pcbs local remote (some j) (inl (e, us)) = absurd (some-ne-none j (sym e))
from_start pcbs local remote (some j) (inr (k, pcb, e, at, good, better)) =
    (pcb, rw (from_zero j k e) at, good, better)

-- `select` answers with a block of the table that fits the local endpoint and whose remote address
-- fits, or that listens when there is no block of the first kind; it answers with none exactly when
-- there is no block of either kind.
pub select-Answer :
    (pcbs : List TcpPcb) (local : IpEndpoint) (remote : Option IpEndpoint)
    → Answer pcbs local remote (select pcbs local remote)
unfolding select
select-Answer pcbs local remote =
    from_start pcbs local remote _ (select_from-FromAnswer local remote 0 none pcbs)
