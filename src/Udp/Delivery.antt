-- ===== src/Udp/Delivery.antt =====
-- A datagram that one stack sends is taken by the other.
use rust_user_net.Base.{
  ℕ, ◌+◌, ◌-◌, ◌/◌, ◌%◌, ◌^◌, ◌≤◌, ◌<◌, ◌≡◌, refl, ap, List, ◌++◌, none, some, Run, Res, done, err,
  true, ◌==◌, leb, length, All, All-append, drop, arith, ◌∙◌, bit_and, Option-cases, inl, inr,
  ◌>>=◌,
}
use rust_user_net.Utils.Byte.{be_to_le_u16, le_to_be_u16, of_bytes_u16}
use rust_user_net.Utils.Byte.Swap.{conversions_inverse}
use rust_user_net.Utils.Cksum.{cksum16, not_u16}
use rust_user_net.Utils.Cksum.Sum.{IsByte, ones, word_sum, word_sum-le, cksum16_lem}
use rust_user_net.Utils.Cksum.Stamp.{stamp, cksum16-stamp}
use rust_user_net.Channel.{Channels}
use rust_user_net.Ip.Route.{IpEndpoint}
use rust_user_net.Ip.Header.Valid.{le_to_be_u16-lt}
use rust_user_net.Udp.Pcbs.{UdpPcbs, get_by_host}
use rust_user_net.Udp.Datagram.{
  UdpHeader, PseudoHeader, pseudo_bytes, pseudo_sum, header_bytes, bytes_to_header, datagram,
  accept, input, udp_hdr_size,
}

pseudo_bytes-IsByte :
    (h : PseudoHeader) → h.zero_ ≡ 0 → h.protocol < 256 → All IsByte (pseudo_bytes h)
pseudo_bytes-IsByte h e p = omega arith

-- The pseudo header always has a sum, a 16-bit one.
pub pseudo_sum_lem :
    (protocol src dst len : ℕ)
    → protocol < 256
    → (init : ℕ) × (pseudo_sum protocol src dst len ≡ done init) × (init < 2 ^ 16)
unfolding pseudo_sum
pseudo_sum_lem protocol src dst len h =
    let pseudo : PseudoHeader = record {
      src = src;
      dst = dst;
      zero_ = 0;
      protocol = protocol;
      len = len;
    } in
    let small = pseudo_bytes-IsByte pseudo refl h in
    let sum = 0xffff - ones (0 + word_sum 12 (pseudo_bytes pseudo)) in
    (
      not_u16 sum,
      ap (λ r. r >>= λ sum. done (not_u16 sum))
          (cksum16_lem (pseudo_bytes pseudo) 12 0 (omega arith) small
            (omega (arith, word_sum-le 12 (pseudo_bytes pseudo) small))),
      omega arith,
    )

abbrev blank : IpEndpoint → IpEndpoint → List ℕ → UdpHeader
blank src dst udp_data = record {
  src_port = src.port;
  dst_port = dst.port;
  len = le_to_be_u16 ((udp_hdr_size + length udp_data) % 2 ^ 16);
  checksum = 0;
}

abbrev blank_bytes : IpEndpoint → IpEndpoint → List ℕ → List ℕ
blank_bytes src dst udp_data = header_bytes (blank src dst udp_data) ++ udp_data

abbrev stamped : IpEndpoint → IpEndpoint → List ℕ → ℕ → UdpHeader
stamped src dst udp_data sum = record (blank src dst udp_data) {
  checksum = of_bytes_u16 (bit_and sum 0xff00 / 2 ^ 8 % 2 ^ 8) (bit_and sum 0xff % 2 ^ 8);
}

-- What the receiver reads of a datagram.
pub record IsDatagram (src dst : IpEndpoint) (udp_data bytes : List ℕ) : Type 0 where
  pub header : UdpHeader
  pub init : ℕ
  pub sized : length bytes ≡ udp_hdr_size + length udp_data
  pub read : bytes_to_header bytes ≡ done header
  pub from : header.src_port ≡ src.port
  pub to : header.dst_port ≡ dst.port
  pub says : be_to_le_u16 header.len ≡ udp_hdr_size + length udp_data
  pub pseudo : pseudo_sum 0x11 src.address dst.address header.len ≡ done init
  pub verifies : cksum16 bytes (length bytes) init ≡ done 0
  pub carries : drop udp_hdr_size bytes ≡ udp_data

read-stamped :
    (src dst : IpEndpoint) (udp_data : List ℕ) (sum : ℕ)
    → src.port < 2 ^ 16
    → dst.port < 2 ^ 16
    → (le_to_be_u16 ((udp_hdr_size + length udp_data) % 2 ^ 16) < 2 ^ 16)
    → bytes_to_header (stamp 6 sum (blank_bytes src dst udp_data))
      ≡ done (stamped src dst udp_data sum)
unfolding bytes_to_header
read-stamped src dst udp_data sum hs hd hl = ground arith

blank-IsByte :
    (src dst : IpEndpoint) (udp_data : List ℕ)
    → All IsByte udp_data
    → All IsByte (blank_bytes src dst udp_data)
blank-IsByte src dst udp_data small =
    All-append IsByte (header_bytes (blank src dst udp_data)) udp_data (omega arith) small

-- The datagram that is made, and what is read of it.
pub datagram-IsDatagram :
    (src dst : IpEndpoint) (udp_data : List ℕ)
    → src.port < 2 ^ 16
    → dst.port < 2 ^ 16
    → length udp_data ≤ 65507
    → All IsByte udp_data
    → (bytes : List ℕ) × (datagram src dst udp_data ≡ done bytes)
      × IsDatagram src dst udp_data bytes
unfolding datagram
datagram-IsDatagram src dst udp_data hs hd fits small =
    let wide : (8 + length udp_data) % 2 ^ 16 ≡ 8 + length udp_data = omega arith in
    let len = le_to_be_u16 ((udp_hdr_size + length udp_data) % 2 ^ 16) in
    let len_small = le_to_be_u16-lt ((udp_hdr_size + length udp_data) % 2 ^ 16) (omega arith) in
    let ps = pseudo_sum_lem 0x11 src.address dst.address len (omega arith) in
    let bytes = blank_bytes src dst udp_data in
    let st =
      cksum16-stamp bytes (8 + length udp_data) ps.0 6 (omega arith) (omega arith) ps.2
        (blank-IsByte src dst udp_data small) (refl, refl, refl) (omega arith) in
    let allowed : leb (length udp_data) 65507 ≡ true = ground arith in
    (
      stamp 6 st.0 bytes,
      rw (allowed, ps.1, st.1) refl,
      record {
        header = stamped src dst udp_data st.0;
        init = ps.0;
        sized = omega arith;
        read = read-stamped src dst udp_data st.0 hs hd len_small;
        from = refl;
        to = refl;
        says = (conversions_inverse _ 0 (omega arith) (omega arith)).0 ∙ wide;
        pseudo = ps.1;
        verifies = ap (λ n. cksum16 (stamp 6 st.0 bytes) n ps.0) (omega arith) ∙ st.3;
        carries = refl;
      },
    )

-- What the receiving stack does with the data of a datagram.
abbrev pub handed :
    IpEndpoint
    → IpEndpoint
    → List ℕ
    → UdpPcbs
    → Channels
    → Run (Res (Unit {0}) × UdpPcbs × Channels)
handed src dst udp_data pcbs channels = elim (get_by_host pcbs dst.address dst.port) [
  | none ↦ done (err, pcbs, channels)
  | some pcb_id ↦
      accept pcbs channels pcb_id
        (record { remote_endpoint = src; len = length udp_data; payload = udp_data })
]

-- The datagram at `input` of another stack.
pub input-IsDatagram :
    (src dst : IpEndpoint) (udp_data bytes : List ℕ) (pcbs : UdpPcbs) (channels : Channels)
    → length udp_data ≤ 65507
    → IsDatagram src dst udp_data bytes
    → input bytes (length bytes) src.address dst.address pcbs channels
      ≡ handed src dst udp_data pcbs channels
unfolding input
input-IsDatagram src dst udp_data bytes pcbs channels fits d =
    let len_ok : (be_to_le_u16 d.header.len == length bytes % 2 ^ 16) ≡ true =
      ground (arith, d.says, d.sized) in
    let long : leb 8 (length bytes) ≡ true = ground (arith, d.sized) in
    let rest : length bytes - 8 ≡ length udp_data = omega (arith, d.sized) in
    rw (d.read, len_ok, d.pseudo, d.verifies, d.to)
      (elim (Option-cases (get_by_host pcbs dst.address dst.port)) [
        | inl e ↦ rw (e, handed) refl
        | inr (i, e) ↦ rw (e, handed, d.from, long, rest, d.carries) refl
      ])
