-- ===== src/Utils/Cksum/Sum.antt =====
-- What `cksum16` computes: the complement of the sum of the big-endian words, modulo 65535.
use rust_user_net.Base.{
  ℕ, zero, suc, ◌+◌, ◌-◌, ◌*◌, ◌/◌, ◌%◌, ◌^◌, ◌≤◌, ◌<◌, ◌≡◌, ap, bit_and, List, [], ◌∷◌, done,
  Option, get_elem?, length, All, arith, ◌==◌, if◌then◌else◌, ◌∙◌,
}
use rust_user_net.Base.Bits.{bit_and_low, bit_or_join}
use rust_user_net.Utils.Cksum.{add_words, add_u32, fold_carry, cksum16}

-- The specification: the big-endian words of the first `len` bytes, an odd byte being a high one.
abbrev pub word_sum : ℕ → List ℕ → ℕ
word_sum zero bytes = 0
word_sum (suc len) [] = 0
word_sum (suc zero) (high ∷ bytes) = high * 256
word_sum (suc (suc len)) (high ∷ []) = high * 256
word_sum (suc (suc len)) (high ∷ low ∷ bytes) = high * 256 + low + word_sum len bytes

-- A sum with its carries added back: 0 for 0, and else the residue modulo 65535 from 1 to 65535.
abbrev pub ones : ℕ → ℕ
ones sum = if sum == 0 then 0 else (sum - 1) % 65535 + 1

abbrev pub IsByte : ℕ → Type 0
IsByte b = b < 256

pub word_sum-le :
    (len : ℕ) (bytes : List ℕ) → All IsByte bytes → word_sum len bytes ≤ 32768 * (len + 1)
word_sum-le zero bytes h = omega arith
word_sum-le (suc len) [] h = omega arith
word_sum-le (suc zero) (a ∷ bytes) h = omega arith
word_sum-le (suc (suc len)) (a ∷ []) h = omega arith
word_sum-le (suc (suc len)) (a ∷ b ∷ bytes) h = omega (arith, word_sum-le len bytes h.1.1)

fold_carry-ones : (fuel sum : ℕ) → sum ≤ fuel → fold_carry fuel sum ≡ ones sum
unfolding fold_carry
fold_carry-ones zero sum h = ground arith
fold_carry-ones (suc fuel) sum h =
    ground (arith, bit_and_low 16 sum, fold_carry-ones fuel (bit_and sum 0xffff + sum / 2 ^ 16))

add_u32_lem : (sum word : ℕ) → sum + word < 2 ^ 32 → add_u32 sum word ≡ done (sum + word)
unfolding add_u32
add_u32_lem sum word h = ground arith

here_at :
    {x : Option ℕ} (bytes : List ℕ) (i : ℕ) → get_elem? bytes (i + 0) ≡ x → get_elem? bytes i ≡ x
here_at bytes i h = ap (get_elem? bytes) (omega arith) ∙ h

high_byte : (a : ℕ) → a < 256 → a * 2 ^ 8 % 2 ^ 16 ≡ a * 256
high_byte a h = omega arith

-- The loop from index `i`, where `rest` stands.
add_words_lem :
    (len : ℕ) (bytes rest : List ℕ) (i sum : ℕ)
    → ((k : ℕ) → get_elem? bytes (i + k) ≡ get_elem? rest k)
    → len ≤ length rest
    → All IsByte rest
    → sum + word_sum len rest < 2 ^ 32
    → add_words bytes i len sum ≡ done (sum + word_sum len rest)
unfolding add_words
add_words_lem zero bytes rest i sum at fits small below = ap done (omega arith)
add_words_lem (suc len) bytes [] i sum at fits small below = absurd (omega arith)
add_words_lem (suc zero) bytes (a ∷ rest) i sum at fits small below =
    rw (here_at bytes i (at 0), high_byte a small.0) (add_u32_lem sum (a * 256) below)
add_words_lem (suc (suc len)) bytes (a ∷ []) i sum at fits small below = absurd (omega arith)
add_words_lem (suc (suc len)) bytes (a ∷ b ∷ rest) i sum at fits small below =
    rw
      (
        here_at bytes i (at 0),
        at 1,
        high_byte a small.0,
        bit_or_join 8 a b small.1.0,
        add_u32_lem sum (a * 256 + b) (omega arith),
      )
      (add_words_lem len bytes rest (i + 2) (sum + (a * 256 + b))
          (λ k. ap (get_elem? bytes) (omega arith) ∙ at (suc (suc k))) (omega arith) small.1.1
          (omega arith)
        ∙ ap done (omega arith))

-- On bytes that are there, and few enough that the accumulator does not overflow, `cksum16`
-- returns, and what it returns is the complement of the ones' complement sum of the words.
pub cksum16_lem :
    (bytes : List ℕ) (len init : ℕ)
    → len ≤ length bytes
    → All IsByte bytes
    → init + word_sum len bytes < 2 ^ 32
    → cksum16 bytes len init ≡ done (0xffff - ones (init + word_sum len bytes))
unfolding cksum16
cksum16_lem bytes len init fits small below =
    let total = init + word_sum len bytes in
    rw
      (
        add_words_lem len bytes bytes 0 init (λ k. ap (get_elem? bytes) (omega arith)) fits small
            below,
        fold_carry-ones total total (omega arith),
      )
      (ap done (ground arith))
