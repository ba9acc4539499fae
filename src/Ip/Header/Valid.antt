-- ===== src/Ip/Header/Valid.antt =====
-- A header that is created passes the check of the receiver.
use rust_user_net.Base.{
  ℕ, ◌+◌, ◌-◌, ◌/◌, ◌%◌, ◌^◌, ◌≤◌, ◌<◌, ◌≡◌, refl, ap, ap, List, ◌++◌, done, true, lt→ltb, ok, All,
  arith, length, ◌∙◌, ltb,
}
use rust_user_net.Utils.Byte.{le_to_be_u16, be_to_le_u16}
use rust_user_net.Utils.Byte.Swap.{byte_swap_u16_lem, conversions_inverse}
use rust_user_net.Utils.Cksum.{cksum16}
use rust_user_net.Utils.Cksum.Sum.{IsByte, word_sum, word_sum-le, ones, cksum16_lem}
use rust_user_net.Utils.Cksum.Field.{put_u16, cksum16-put_u16}
use rust_user_net.Ip.Header.{
  IpProtocolType, IpHeader, header_bytes, blank_header, create_ip_header, check_ip_header,
  bytes_to_header,
}

-- The ranges of the fields.
pub record IsHeader (h : IpHeader) : Type 0 where
  pub ver_len_small : h.ver_len < 2 ^ 8
  pub service_small : h.service_type < 2 ^ 8
  pub ttl_small : h.ttl < 2 ^ 8
  pub protocol_small : h.protocol < 2 ^ 8

-- Memory holds a `u16` in the order of the network high byte first.
pub le_to_be_u16-mod : (v : ℕ) → v < 2 ^ 16 → le_to_be_u16 v % 256 ≡ v / 256
unfolding le_to_be_u16
le_to_be_u16-mod v h = omega (arith, byte_swap_u16_lem v h)

pub le_to_be_u16-div : (v : ℕ) → v < 2 ^ 16 → le_to_be_u16 v / 256 % 256 ≡ v % 256
unfolding le_to_be_u16
le_to_be_u16-div v h = omega (arith, byte_swap_u16_lem v h)

header_bytes-IsByte : (h : IpHeader) → IsHeader h → All IsByte (header_bytes h)
header_bytes-IsByte h v = omega arith

blank_header-IsHeader :
    (p : IpProtocolType) (src dst total id : ℕ) → IsHeader (blank_header p src dst total id)
unfolding blank_header
blank_header-IsHeader p src dst total id = ground arith

with_sum :
    (h : IpHeader) (c : ℕ)
    → c < 2 ^ 16
    → header_bytes (record h { check_sum = le_to_be_u16 c }) ≡ put_u16 10 c (header_bytes h)
with_sum h c small = rw (le_to_be_u16-mod c small, le_to_be_u16-div c small)

blank-ver_len :
    (p : IpProtocolType) (src dst total id : ℕ) → (blank_header p src dst total id).ver_len ≡ 0x45
unfolding blank_header
blank-ver_len p src dst total id = refl

blank-total_len :
    (p : IpProtocolType) (src dst total id : ℕ)
    → total < 2 ^ 16
    → be_to_le_u16 (blank_header p src dst total id).total_len ≡ total
unfolding blank_header
blank-total_len p src dst total id h = (conversions_inverse total 0 h (omega arith)).0

blank-offset :
    (p : IpProtocolType) (src dst total id : ℕ)
    → be_to_le_u16 (blank_header p src dst total id).offset ≡ 0
unfolding blank_header be_to_le_u16
blank-offset p src dst total id = omega (arith, byte_swap_u16_lem 0 (omega arith))

-- The fields are words of their widths.
pub record IsWord (h : IpHeader) : Type 0 where
  pub total_len_small : h.total_len < 2 ^ 16
  pub id_small : h.id < 2 ^ 16
  pub offset_small : h.offset < 2 ^ 16
  pub check_sum_small : h.check_sum < 2 ^ 16
  pub src_small : h.src < 2 ^ 32
  pub dst_small : h.dst < 2 ^ 32

-- A header is read back from its bytes, whatever follows them.
pub bytes_to_header-header_bytes :
    (h : IpHeader) (rest : List ℕ) → IsWord h → bytes_to_header (header_bytes h ++ rest) ≡ done h
unfolding bytes_to_header
bytes_to_header-header_bytes h rest w = ground arith

pub le_to_be_u16-lt : (v : ℕ) → v < 2 ^ 16 → le_to_be_u16 v < 2 ^ 16
unfolding le_to_be_u16
le_to_be_u16-lt v h = omega (arith, byte_swap_u16_lem v h)

-- The parameters of a header that the stack creates: a payload that fits one packet.
module _ (p : IpProtocolType) (src dst id : ℕ) (payload : List ℕ)
    (fits : length payload ≤ 65515) where
  abbrev total : ℕ
  total = 20 + length payload

  abbrev blank : IpHeader
  blank = blank_header p src dst total id

  abbrev blank_sum : ℕ
  blank_sum = 0xffff - ones (0 + word_sum 20 (header_bytes blank))

  abbrev pub created : IpHeader
  created = record blank { check_sum = le_to_be_u16 blank_sum }

  blank-IsByte : All IsByte (header_bytes blank)
  blank-IsByte = header_bytes-IsByte blank (blank_header-IsHeader p src dst total id)

  cksum16-blank : cksum16 (header_bytes blank) 20 0 ≡ done blank_sum
  cksum16-blank =
      cksum16_lem (header_bytes blank) 20 0 (omega arith) blank-IsByte
        (omega (arith, word_sum-le 20 (header_bytes blank) blank-IsByte))

  -- A header is created for every payload that fits one packet.
  pub create_ip_header_lem : create_ip_header p src dst payload id ≡ done created
  unfolding create_ip_header
  create_ip_header_lem =
      let wide : length payload % 2 ^ 16 ≡ length payload = omega arith in
      let checked : ltb total (2 ^ 16) ≡ true = lt→ltb total (2 ^ 16) (omega arith) in
      rw (wide, checked, cksum16-blank)

  cksum16-created : cksum16 (header_bytes created) 20 0 ≡ done 0
  cksum16-created = rw (with_sum blank blank_sum (omega arith)) (
      cksum16-put_u16 (header_bytes blank) 20 0 10 blank_sum (omega arith) (omega arith)
        (omega arith) blank-IsByte (unfold blank_header in (refl, refl, refl)) (omega arith)
        cksum16-blank)

  pub check-created : check_ip_header created total 20 ≡ done (ok tt)
  unfolding check_ip_header
  check-created =
      rw
        (
          cksum16-created,
          blank-ver_len p src dst total id,
          blank-total_len p src dst total id (omega arith),
          blank-offset p src dst total id,
        )
        (ground arith)

  pub created-IsWord : id < 2 ^ 16 → src < 2 ^ 32 → dst < 2 ^ 32 → IsWord created
  unfolding blank_header
  created-IsWord id_small src_small dst_small = omega (
    arith,
    le_to_be_u16-lt id id_small,
    le_to_be_u16-lt total (omega arith),
    le_to_be_u16-lt (0xffff - ones (0 + word_sum 20 (header_bytes blank))) (omega arith),
  )

  -- A packet with the created header in front of its payload is accepted: the header is read back
  -- as it was made, and passes the check of its version, lengths, checksum and fragment fields.
  pub create-check :
      id < 2 ^ 16
      → src < 2 ^ 32
      → dst < 2 ^ 32
      → (h : IpHeader) × (create_ip_header p src dst payload id ≡ done h)
        × (bytes_to_header (header_bytes h ++ payload) ≡ done h)
        × (check_ip_header h (length (header_bytes h ++ payload)) 20 ≡ done (ok tt))
        × (be_to_le_u16 h.total_len ≡ length (header_bytes h ++ payload))
  create-check id_small src_small dst_small = (
    created,
    create_ip_header_lem,
    bytes_to_header-header_bytes _ payload (created-IsWord id_small src_small dst_small),
    ap (λ n. check_ip_header created n 20) (omega arith) ∙ check-created,
    blank-total_len p src dst total id (omega arith) ∙ omega arith,
  )
