-- ===== src/Utils/Byte/Swap.antt =====
-- The conversions of src/utils/byte.rs as arithmetic on bytes.
use rust_user_net.Base.{ℕ, ◌+◌, ◌*◌, ◌/◌, ◌%◌, ◌^◌, ◌<◌, ◌≡◌, ◌∙◌, bit_and, bit_or, arith}
use rust_user_net.Base.Bits.{bit_and_low, bit_and_high, bit_or_sum}
use rust_user_net.Utils.Byte.{
  byte_swap_u16, byte_swap_u32, be_to_le_u16, le_to_be_u16, be_to_le_u32, le_to_be_u32,
  of_bytes_u16,
}

-- The byte of `v` that stands `k` bits up, in place.
pub masked_byte : (k v : ℕ) → bit_and v (0xff * 2 ^ k) ≡ v / 2 ^ k % 256 * 2 ^ k
masked_byte k v = ground (arith, bit_and_high k v 0xff, bit_and_low 8 (v / 2 ^ k))

pub byte_swap_u16_lem : (v : ℕ) → v < 2 ^ 16 → byte_swap_u16 v ≡ v % 256 * 256 + v / 256
unfolding byte_swap_u16
byte_swap_u16_lem v h =
    rw (masked_byte 0 v, masked_byte 8 v)
      (bit_or_sum 8 (v % 256) _ _ (omega arith) (omega arith) ∙ omega arith)

-- Four bytes that stand apart.
bit_or_bytes :
    (a b c x y z w : ℕ)
    → b < 256
    → c < 256
    → x ≡ a * 16777216
    → y ≡ b * 65536
    → z ≡ c * 256
    → w < 256
    → bit_or (bit_or (bit_or x y) z) w ≡ x + y + z + w
bit_or_bytes a b c x y z w hb hc ex ey ez hw = rw (
  bit_or_sum 24 a x y (omega arith) (omega arith),
  bit_or_sum 16 (a * 256 + b) (x + y) z (omega arith) (omega arith),
  bit_or_sum 8 (a * 65536 + b * 256 + c) (x + y + z) w (omega arith) (omega arith),
)

pub byte_swap_u32_lem :
    (v : ℕ)
    → v < 2 ^ 32
    → byte_swap_u32 v
      ≡ v % 256 * 16777216 + v / 256 % 256 * 65536 + v / 65536 % 256 * 256 + v / 16777216
unfolding byte_swap_u32
byte_swap_u32_lem v h =
    rw (masked_byte 0 v, masked_byte 8 v, masked_byte 16 v, masked_byte 24 v)
      (bit_or_bytes (v % 256) (v / 256 % 256) (v / 65536 % 256) _ _ _ _ (omega arith) (omega arith)
          (omega arith) (omega arith) (omega arith) (omega arith)
        ∙ omega arith)

twice_u16 : (v : ℕ) → v < 2 ^ 16 → byte_swap_u16 (byte_swap_u16 v) ≡ v
twice_u16 v h =
    let swapped = byte_swap_u16_lem v h in
    omega (arith, swapped, byte_swap_u16_lem (byte_swap_u16 v) (omega arith))

twice_u32 : (v : ℕ) → v < 2 ^ 32 → byte_swap_u32 (byte_swap_u32 v) ≡ v
twice_u32 v h =
    let swapped = byte_swap_u32_lem v h in
    omega (arith, swapped, byte_swap_u32_lem (byte_swap_u32 v) (omega arith))

-- Read in the order of the network, two bytes of memory are a big-endian number.
pub be_to_le_u16-of_bytes :
    (a b : ℕ) → a < 256 → b < 256 → be_to_le_u16 (of_bytes_u16 a b) ≡ a * 256 + b
unfolding be_to_le_u16
be_to_le_u16-of_bytes a b ha hb = omega (arith, byte_swap_u16_lem (a + 256 * b) (omega arith))

-- The conversions to and from the order of the network undo one another, in both directions, on
-- every value of 16 bits and on every value of 32 bits.
pub conversions_inverse :
    (v w : ℕ)
    → v < 2 ^ 16
    → w < 2 ^ 32
    → (be_to_le_u16 (le_to_be_u16 v) ≡ v)
      × (le_to_be_u16 (be_to_le_u16 v) ≡ v)
      × (be_to_le_u32 (le_to_be_u32 w) ≡ w)
      × (le_to_be_u32 (be_to_le_u32 w) ≡ w)
unfolding be_to_le_u16 le_to_be_u16 be_to_le_u32 le_to_be_u32
conversions_inverse v w hv hw = (twice_u16 v hv, twice_u16 v hv, twice_u32 w hw, twice_u32 w hw)
