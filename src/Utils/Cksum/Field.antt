-- ===== src/Utils/Cksum/Field.antt =====
-- Writing a checksum into the field that was zero when it was taken, and verifying it.
use rust_user_net.Base.{
  ℕ, zero, suc, ◌+◌, ◌-◌, ◌/◌, ◌%◌, ◌^◌, ◌≤◌, ◌<◌, ◌≡◌, List, [], ◌∷◌, done, some, get_elem?, set,
  length, length-set, All, All-set, arith, ◌∙◌,
}
use rust_user_net.Utils.Cksum.{cksum16}
use rust_user_net.Utils.Cksum.Sum.{word_sum, ones, IsByte, word_sum-le, cksum16_lem}

-- Two bytes from the even offset `p` on are zero.
abbrev pub IsClear : ℕ → List ℕ → Type 0
IsClear p bytes = (p % 2 ≡ 0) × (get_elem? bytes p ≡ some 0) × (get_elem? bytes (suc p) ≡ some 0)

-- `data[p] = ((sum & 0xff00) >> 8) as u8; data[p + 1] = (sum & 0xff) as u8`.
abbrev pub put_u16 : ℕ → ℕ → List ℕ → List ℕ
put_u16 p sum bytes = set (set bytes p (sum / 256)) (suc p) (sum % 256)

word_sum-put_u16 :
    (p len c : ℕ) (bytes : List ℕ)
    → p % 2 ≡ 0
    → get_elem? bytes p ≡ some 0
    → get_elem? bytes (suc p) ≡ some 0
    → suc (suc p) ≤ len
    → word_sum len (put_u16 p c bytes) ≡ word_sum len bytes + c
word_sum-put_u16 p zero c bytes even here next room = absurd (omega arith)
word_sum-put_u16 p (suc zero) c bytes even here next room = absurd (omega arith)
word_sum-put_u16 p (suc (suc len)) c [] even here next room = cc
word_sum-put_u16 zero (suc (suc len)) c (a ∷ []) even here next room = cc
word_sum-put_u16 (suc p) (suc (suc len)) c (a ∷ []) even here next room = cc
word_sum-put_u16 zero (suc (suc len)) c (a ∷ b ∷ bytes) even here next room = ground arith
word_sum-put_u16 (suc zero) (suc (suc len)) c (a ∷ b ∷ bytes) even here next room =
    absurd (omega arith)
word_sum-put_u16 (suc (suc p)) (suc (suc len)) c (a ∷ b ∷ bytes) even here next room =
    omega (arith, word_sum-put_u16 p len c bytes (omega arith) here next (omega arith))

pub length-put_u16 : (p c : ℕ) (bytes : List ℕ) → length (put_u16 p c bytes) ≡ length bytes
length-put_u16 p c bytes =
    length-set (set bytes p (c / 256)) (suc p) (c % 256) ∙ length-set bytes p (c / 256)

pub put_u16-IsByte :
    (p c : ℕ) (bytes : List ℕ) → All IsByte bytes → c < 2 ^ 16 → All IsByte (put_u16 p c bytes)
put_u16-IsByte p c bytes small h =
    All-set IsByte _ (suc p) (c % 256) (All-set IsByte bytes p (c / 256) small (omega arith))
      (omega arith)

-- The ones' complement sum with its own complement added is 65535.
ones_complement : (sum : ℕ) → ones (sum + (0xffff - ones sum)) ≡ 0xffff
ones_complement sum = ground arith

-- A checksum that is written into the clear field at an even offset verifies: over the same bytes
-- and from the same start, `cksum16` then returns 0. The lengths are those of the protocols.
pub cksum16-put_u16 :
    (bytes : List ℕ) (len init p c : ℕ)
    → len ≤ length bytes
    → len ≤ 131000
    → init < 2 ^ 16
    → All IsByte bytes
    → IsClear p bytes
    → suc (suc p) ≤ len
    → cksum16 bytes len init ≡ done c
    → cksum16 (put_u16 p c bytes) len init ≡ done 0
cksum16-put_u16 bytes len init p c fits short start small clear room taken =
    let total = init + word_sum len bytes in
    let value : c ≡ 0xffff - ones total =
      cc (cksum16_lem bytes len init fits small (omega (arith, word_sum-le len bytes small))) in
    let sum = word_sum-put_u16 p len c bytes clear.0 clear.1 clear.2 room in
    let bound = word_sum-le len bytes small in
    let shifted : init + word_sum len (put_u16 p c bytes) ≡ total + (0xffff - ones total) =
      omega arith in
    cksum16_lem (put_u16 p c bytes) len init (omega (arith, length-put_u16 p c bytes))
      (put_u16-IsByte p c bytes small (omega arith)) (omega arith)
    ∙ rw (shifted, ones_complement total)
