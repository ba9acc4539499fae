-- ===== src/Utils/Byte.antt =====
-- src/utils/byte.rs, and the byte images that src/utils/mod.rs reads and writes. The target is
-- little-endian, as the tests of the source take it to be.
pub mod Swap
use rust_user_net.Base.{
  ℕ, ◌+◌, ◌*◌, ◌/◌, ◌%◌, ◌^◌, bit_and, bit_or, Bool, false, List, [], ◌∷◌, if◌then◌else◌,
}

-- `cfg!(target_endian = "big")`.
abbrev pub target_big_endian : Bool
target_big_endian = false

unfoldable pub byte_swap_u16 : ℕ → ℕ
byte_swap_u16 v = bit_or (bit_and v 0x00ff * 2 ^ 8 % 2 ^ 16) (bit_and v 0xff00 / 2 ^ 8)

unfoldable pub byte_swap_u32 : ℕ → ℕ
byte_swap_u32 v =
    bit_or
      (bit_or
        (bit_or (bit_and v 0x000000ff * 2 ^ 24 % 2 ^ 32) (bit_and v 0x0000ff00 * 2 ^ 8 % 2 ^ 32))
        (bit_and v 0x00ff0000 / 2 ^ 8))
      (bit_and v 0xff000000 / 2 ^ 24)

unfoldable pub be_to_le_u16 : ℕ → ℕ
be_to_le_u16 v = if target_big_endian then v else byte_swap_u16 v

unfoldable pub le_to_be_u16 : ℕ → ℕ
le_to_be_u16 v = if target_big_endian then v else byte_swap_u16 v

unfoldable pub be_to_le_u32 : ℕ → ℕ
be_to_le_u32 v = if target_big_endian then v else byte_swap_u32 v

unfoldable pub le_to_be_u32 : ℕ → ℕ
le_to_be_u32 v = if target_big_endian then v else byte_swap_u32 v

-- The bytes of an integer in memory, and back.
abbrev pub bytes_u16 : ℕ → List ℕ
bytes_u16 v = v % 256 ∷ v / 256 % 256 ∷ []

abbrev pub bytes_u32 : ℕ → List ℕ
bytes_u32 v = v % 256 ∷ v / 256 % 256 ∷ v / 65536 % 256 ∷ v / 16777216 % 256 ∷ []

abbrev pub of_bytes_u16 : ℕ → ℕ → ℕ
of_bytes_u16 a b = a + 256 * b

abbrev pub of_bytes_u32 : ℕ → ℕ → ℕ → ℕ → ℕ
of_bytes_u32 a b c d = a + 256 * b + 65536 * c + 16777216 * d
