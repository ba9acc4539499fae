-- ===== src/Utils/Cksum/Stamp.antt =====
-- The way in which ICMP, UDP and TCP write a checksum into their bytes.
use rust_user_net.Base.{
  ℕ, suc, ◌+◌, ◌-◌, ◌/◌, ◌%◌, ◌^◌, ◌≤◌, ◌<◌, ◌≡◌, bit_and, List, done, set, length, All, arith, ◌∙◌,
  ap, ap₂,
}
use rust_user_net.Utils.Byte.Swap.{masked_byte}
use rust_user_net.Utils.Cksum.{cksum16}
use rust_user_net.Utils.Cksum.Sum.{IsByte, ones, word_sum, word_sum-le, cksum16_lem}
use rust_user_net.Utils.Cksum.Field.{IsClear, put_u16, cksum16-put_u16}

-- `data[p] = ((sum & 0xff00) >> 8) as u8; data[p + 1] = (sum & 0xff) as u8`.
abbrev pub stamp : ℕ → ℕ → List ℕ → List ℕ
stamp p sum bytes =
    set (set bytes p (bit_and sum 0xff00 / 2 ^ 8 % 2 ^ 8)) (suc p) (bit_and sum 0xff % 2 ^ 8)

pub stamp-put_u16 :
    (p sum : ℕ) (bytes : List ℕ) → sum < 2 ^ 16 → stamp p sum bytes ≡ put_u16 p sum bytes
stamp-put_u16 p sum bytes h =
    ap₂ (λ a b. set (set bytes p a) (suc p) b) (omega (arith, masked_byte 8 sum))
      (omega (arith, masked_byte 0 sum))

-- Over the first `len` of some bytes, at most 131000, with a field of two bytes at an even offset
-- that is clear, and from a start of 16 bits, `cksum16` returns a 16-bit sum; and with the sum
-- stamped into the field it returns 0, which is what the receiver tests.
pub cksum16-stamp :
    (bytes : List ℕ) (len init p : ℕ)
    → len ≤ length bytes
    → len ≤ 131000
    → init < 2 ^ 16
    → All IsByte bytes
    → IsClear p bytes
    → suc (suc p) ≤ len
    → (sum : ℕ) × (cksum16 bytes len init ≡ done sum)
      × (sum < 2 ^ 16)
      × (cksum16 (stamp p sum bytes) len init ≡ done 0)
cksum16-stamp bytes len init p fits short start small clear room =
    let bound = word_sum-le len bytes small in
    let sum = 0xffff - ones (init + word_sum len bytes) in
    let taken = cksum16_lem bytes len init fits small (omega arith) in
    (
      sum,
      taken,
      omega arith,
      ap (λ bs. cksum16 bs len init) (stamp-put_u16 p sum bytes (omega arith))
          ∙ cksum16-put_u16 bytes len init p sum fits short start small clear room taken,
    )
