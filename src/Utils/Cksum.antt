-- ===== src/Utils/Cksum.antt =====
-- `cksum16` of src/utils/mod.rs. The accumulator is a `u32` whose additions are checked.
pub mod Sum
pub mod Field
pub mod Stamp
use rust_user_net.Base.{
  ℕ, zero, suc, ◌+◌, ◌-◌, ◌*◌, ◌/◌, ◌%◌, ◌^◌, bit_and, bit_or, List, Run, done, ◌>>=◌, ◌>>◌, check,
  unwrap, get_elem?, ltb, ◌==◌, if◌then◌else◌,
}

-- `sum += word`.
add_u32 : ℕ → ℕ → Run ℕ
add_u32 sum word = check (ltb (sum + word) (2 ^ 32)) >> done (sum + word)

-- The loop over 16-bit blocks, with `len` bytes left from index `i`, and the odd byte behind it.
add_words : List ℕ → ℕ → ℕ → ℕ → Run ℕ
unfolding add_u32
add_words bytes i zero sum = done sum
add_words bytes i (suc zero) sum = do
  high ← unwrap (get_elem? bytes i)
  add_u32 sum (high * 2 ^ 8 % 2 ^ 16)
add_words bytes i (suc (suc len)) sum = do
  high ← unwrap (get_elem? bytes i)
  low ← unwrap (get_elem? bytes (i + 1))
  sum' ← add_u32 sum (bit_or (high * 2 ^ 8 % 2 ^ 16) low)
  add_words bytes (i + 2) len sum'

-- `while (sum >> 16) != 0`, on fuel; `sum` rounds are enough.
fold_carry : ℕ → ℕ → ℕ
fold_carry zero sum = sum
fold_carry (suc fuel) sum =
    let rest = fold_carry fuel (bit_and sum 0xffff + sum / 2 ^ 16) in
    if sum / 2 ^ 16 == 0 then sum else rest

-- `!(sum as u16)`.
abbrev pub not_u16 : ℕ → ℕ
not_u16 v = 0xffff - v % 2 ^ 16

unfoldable pub cksum16 : List ℕ → ℕ → ℕ → Run ℕ
unfolding add_words fold_carry
cksum16 bytes len init = do sum ← add_words bytes 0 len init; done (not_u16 (fold_carry sum sum))
