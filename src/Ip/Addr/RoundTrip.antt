-- ===== src/Ip/Addr/RoundTrip.antt =====
-- An address that is printed is read back.
use rust_user_net.Base.{
  ℕ, zero, suc, ◌+◌, ◌*◌, ◌/◌, ◌%◌, ◌^◌, ◌<◌, ◌≡◌, refl, ap, ◌∙◌, bit_and, List, [], ◌∷◌, ◌++◌,
  Bool, true, false, ◌&&◌, none, some, done, arith, ◌==◌, if◌then◌else◌,
}
use native.Mathlib.Nat.{mod-eq_of_lt}
use rust_user_net.Base.Bits.{bit_and_low, bit_or_sum, bit_or_comm}
use rust_user_net.Ip.Addr.{
  split, parse_u8, to_string, parse_parts, print_parts, join, ip_addr_to_bytes, ip_addr_to_str,
}

abbrev dotless : List ℕ → Bool
dotless [] = true
dotless (c ∷ text) = if c == 46 then false else dotless text

abbrev reads_back : ℕ → Bool
reads_back b = elim (parse_u8 (to_string b)) [
  | none ↦ false
  | some v ↦ v == b && dotless (to_string b)
]

all_below : ℕ → (ℕ → Bool) → Bool
all_below zero p = true
all_below (suc n) p = p n && all_below n p

at_below : (n : ℕ) (p : ℕ → Bool) (b : ℕ) → all_below n p ≡ true → b < n → p b ≡ true
unfolding all_below
at_below zero p b h lt = absurd (omega arith)
at_below (suc n) p b h lt = ground (arith, at_below n p b)

bytes_read_back : all_below 256 reads_back ≡ true
unfolding all_below to_string parse_u8
bytes_read_back = refl

reads_back_lem :
    (b : ℕ) → b < 256 → (parse_u8 (to_string b) ≡ some b) × (dotless (to_string b) ≡ true)
reads_back_lem b h = ground (arith, at_below 256 reads_back b bytes_read_back h)

split-append :
    (part rest : List ℕ) → dotless part ≡ true → split 46 (part ++ 46 ∷ rest) ≡ part ∷ split 46 rest
unfolding split
split-append [] rest h = refl
split-append (c ∷ part) rest h = ground (arith, split-append part rest)

split_last : (part : List ℕ) → dotless part ≡ true → split 46 part ≡ part ∷ []
unfolding split
split_last [] h = refl
split_last (c ∷ part) h = ground (arith, split_last part)

split-join :
    (a b c d : List ℕ)
    → dotless a ≡ true
    → dotless b ≡ true
    → dotless c ≡ true
    → dotless d ≡ true
    → split 46 (join (a ∷ b ∷ c ∷ d ∷ [])) ≡ a ∷ b ∷ c ∷ d ∷ []
unfolding join
split-join a b c d ha hb hc hd = rw (
  split-append a (b ++ 46 ∷ (c ++ 46 ∷ d)) ha,
  split-append b (c ++ 46 ∷ d) hb,
  split-append c d hc,
  split_last d hd,
)

-- One round of the loop puts a byte above those that were read.
parse_round :
    (left i b res : ℕ) (parts : List (List ℕ))
    → b < 256
    → res < 2 ^ (8 * i)
    → b * 2 ^ (8 * i) < 2 ^ 32
    → parse_parts (suc left) i (to_string b ∷ parts) res
      ≡ parse_parts left (i + 1) parts (b * 2 ^ (8 * i) + res)
unfolding parse_parts
parse_round left i b res parts hb hr small = rw (
  (reads_back_lem b hb).0,
  mod-eq_of_lt small,
  bit_or_comm res (b * 2 ^ (8 * i)),
  bit_or_sum (8 * i) b (b * 2 ^ (8 * i)) res refl hr,
)

printed : (i addr : ℕ) → bit_and (addr / 2 ^ (8 * i)) 255 ≡ addr / 2 ^ (8 * i) % 256
printed i addr = bit_and_low 8 (addr / 2 ^ (8 * i))

abbrev four_parts : ℕ → ℕ → ℕ → ℕ → List (List ℕ)
four_parts a b c d = to_string a ∷ to_string b ∷ to_string c ∷ to_string d ∷ []

print_parts_lem :
    (addr : ℕ)
    → print_parts 4 0 addr
      ≡ four_parts (addr % 256) (addr / 256 % 256) (addr / 65536 % 256) (addr / 16777216 % 256)
unfolding print_parts
print_parts_lem addr = rw (printed 0 addr, printed 1 addr, printed 2 addr, printed 3 addr, one addr)
  where
    one : (n : ℕ) → n / 1 ≡ n
    one n = omega arith

parse_parts_lem :
    (a b c d : ℕ)
    → a < 256
    → b < 256
    → c < 256
    → d < 256
    → parse_parts 4 0 (four_parts a b c d) 0 ≡ done (some (a + b * 256 + c * 65536 + d * 16777216))
parse_parts_lem a b c d ha hb hc hd =
    parse_round 3 0 a 0 _ ha (omega arith) (omega arith)
    ∙ parse_round 2 1 b (a * 1 + 0) _ hb (omega arith) (omega arith)
    ∙ parse_round 1 2 c (b * 256 + (a * 1 + 0)) _ hc (omega arith) (omega arith)
    ∙ parse_round 0 3 d (c * 65536 + (b * 256 + (a * 1 + 0))) _ hd (omega arith) (omega arith)
    ∙ unfold parse_parts in ap (λ n. done (some n)) (omega arith)

ip_addr_to_str_lem : (addr : ℕ) → ip_addr_to_str addr ≡ join (print_parts 4 0 addr)
unfolding ip_addr_to_str
ip_addr_to_str_lem addr = refl

ip_addr_to_bytes_lem : (text : List ℕ) → ip_addr_to_bytes text ≡ parse_parts 4 0 (split 46 text) 0
unfolding ip_addr_to_bytes
ip_addr_to_bytes_lem text = refl

-- Every address is read back from the text that is printed for it.
pub ip_addr_to_bytes-ip_addr_to_str :
    (addr : ℕ) → addr < 2 ^ 32 → ip_addr_to_bytes (ip_addr_to_str addr) ≡ done (some addr)
ip_addr_to_bytes-ip_addr_to_str addr h =
    let byte = λ (k : ℕ). addr / k % 256 in
    let dotless_at = λ (b : ℕ) (small : b < 256). (reads_back_lem b small).1 in
    rw
      (
        ip_addr_to_str_lem addr,
        print_parts_lem addr,
        ip_addr_to_bytes_lem,
        split-join _ _ _ _ (dotless_at (addr % 256) (omega arith))
            (dotless_at (byte 256) (omega arith)) (dotless_at (byte 65536) (omega arith))
            (dotless_at (byte 16777216) (omega arith)),
      )
      (parse_parts_lem (addr % 256) (byte 256) (byte 65536) (byte 16777216) (omega arith)
          (omega arith) (omega arith) (omega arith)
        ∙ ap (λ n. done (some n)) (omega arith))
