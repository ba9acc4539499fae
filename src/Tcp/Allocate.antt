-- ===== src/Tcp/Allocate.antt =====
-- Which block `new_entry` of src/protocols/ip/tcp.rs takes.
use rust_user_net.Base.{
  ℕ, ◌+◌, ◌≡◌, refl, ap, List, [], ◌∷◌, ◌++◌, Option, none, some, All, length, arith, ne→==, eq→==,
}
use native.Mathlib.Decide.{ℕ_discrete}
use rust_user_net.Tcp.Types.{TcpPcb, TcpPcbState, state_tag}
use rust_user_net.Tcp.Pcbs.{new_entry_from, new_entry}

abbrev pub IsFree : TcpPcb → Type 0
IsFree pcb = state_tag pcb.state ≡ 0

-- The first free block is at place `j`, counted from `i`; it is closed, the others are as they were.
pub record TakesFirstFree (i j : ℕ) (pcbs pcbs' : List TcpPcb) : Type 0 where
  pub before : List TcpPcb
  pub pcb : TcpPcb
  pub after : List TcpPcb
  pub split : pcbs ≡ before ++ pcb ∷ after
  pub place : i + length before ≡ j
  pub is_free : IsFree pcb
  pub none_before : All (λ p. ¬ IsFree p) before
  pub result : pcbs' ≡ before ++ record pcb { state = TcpPcbState.closed } ∷ after

-- What an allocation over these blocks answers.
abbrev pub Taken : ℕ → List TcpPcb → Option (ℕ × List TcpPcb) → Type 0
Taken i pcbs none = All (λ p. ¬ IsFree p) pcbs
Taken i pcbs (some (j, pcbs')) = TakesFirstFree i j pcbs pcbs'

below-Taken :
    (i : ℕ) (pcb : TcpPcb) (pcbs : List TcpPcb) (o : Option (ℕ × List TcpPcb))
    → ¬ IsFree pcb
    → Taken (i + 1) pcbs o
    → Taken i (pcb ∷ pcbs) (elim o [ none ↦ none | some (j, pcbs') ↦ some (j, pcb ∷ pcbs') ])
below-Taken i pcb pcbs none busy t = (busy, t)
below-Taken i pcb pcbs (some (j, pcbs')) busy t = record {
  before = pcb ∷ t.before;
  pcb = t.pcb;
  after = t.after;
  split = ap (◌∷◌ pcb) t.split;
  place = omega (arith, t.place);
  is_free = t.is_free;
  none_before = (busy, t.none_before);
  result = ap (◌∷◌ pcb) t.result;
}

new_entry_from-Taken : (i : ℕ) (pcbs : List TcpPcb) → Taken i pcbs (new_entry_from i pcbs)
unfolding new_entry_from
new_entry_from-Taken i [] = tt
new_entry_from-Taken i (pcb ∷ pcbs) = elim (ℕ_discrete (state_tag pcb.state) 0) [
  | yes e ↦ rw (eq→== (state_tag pcb.state) 0 e) (record {
    before = [];
    pcb = pcb;
    after = pcbs;
    split = refl;
    place = omega arith;
    is_free = e;
    none_before = tt;
    result = refl;
  })
  | no ne ↦
      rw (ne→== (state_tag pcb.state) 0 ne)
        (below-Taken i pcb pcbs _ ne (new_entry_from-Taken (i + 1) pcbs))
]

-- An allocation takes the first free block of the table and closes it, and leaves all other blocks
-- as they were; it fails exactly when no block is free.
pub new_entry-Taken : (pcbs : List TcpPcb) → Taken 0 pcbs (new_entry pcbs)
unfolding new_entry
new_entry-Taken pcbs = new_entry_from-Taken 0 pcbs
