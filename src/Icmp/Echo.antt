-- ===== src/Icmp/Echo.antt =====
-- A message that `output` of src/protocols/ip/icmp.rs makes, at `input` of another stack.
use rust_user_net.Base.{
  ℕ, ◌+◌, ◌-◌, ◌/◌, ◌%◌, ◌^◌, ◌≤◌, ◌<◌, ◌≡◌, refl, ap, List, ◌++◌, Run, Res, done, ok, true, ◌==◌,
  leb, length, All, All-append, arith, ◌∙◌, bit_and, not, ◌>>=◌, if◌then◌else◌,
}
use rust_user_net.Utils.Byte.{of_bytes_u16}
use rust_user_net.Utils.Cksum.Sum.{IsByte}
use rust_user_net.Utils.Cksum.Stamp.{stamp, cksum16-stamp}
use rust_user_net.Device.Types.{Env}
use rust_user_net.Ip.Route.{IpInterface}
use rust_user_net.Context.{Host}
use rust_user_net.Icmp.{IcmpHeader, header_bytes, bytes_to_header, message, output, input}

-- A message to send.
pub record Fields : Type 0 where
  pub icmp_type : ℕ
  pub code : ℕ
  pub values : ℕ
  pub icmp_data : List ℕ

-- The fields are of their widths, and the data fits one packet.
pub record IsFields (f : Fields) : Type 0 where
  pub type_small : f.icmp_type < 2 ^ 8
  pub code_small : f.code < 2 ^ 8
  pub values_small : f.values < 2 ^ 32
  pub fits : length f.icmp_data ≤ 65507
  pub data_bytes : All IsByte f.icmp_data

abbrev blank : Fields → IcmpHeader
blank f = record { icmp_type = f.icmp_type; code = f.code; check_sum = 0; values = f.values }

abbrev blank_bytes : Fields → List ℕ
blank_bytes f = header_bytes (blank f) ++ f.icmp_data

abbrev stamped : Fields → ℕ → IcmpHeader
stamped f sum = record (blank f) {
  check_sum = of_bytes_u16 (bit_and sum 0xff00 / 2 ^ 8 % 2 ^ 8) (bit_and sum 0xff % 2 ^ 8);
}

read-stamped :
    (f : Fields) (sum : ℕ)
    → IsFields f
    → bytes_to_header (stamp 2 sum (blank_bytes f)) ≡ done (stamped f sum)
unfolding bytes_to_header
read-stamped f sum v = ground (arith, v.values_small)

-- What the receiver does: it echoes an echo request to its source from its own address.
abbrev pub echoed : Env → Fields → ℕ → ℕ → IpInterface → Host → Run (Res (Unit {0}) × Host)
echoed env f src dst iface host =
    if f.icmp_type == 8
    then (output env 0 f.code f.values f.icmp_data (length f.icmp_data)
          (if not (dst == iface.unicast) then iface.unicast else dst) src host
        >>= λ host'. done (ok tt, host'))
    else done (ok tt, host)

-- A message that one stack makes, of fields of their widths and data of bytes that fits one packet,
-- passes the checksum of another. That one answers an echo request with an echo reply of the same
-- code, values and data to the source, from its own address, and takes any other message silently.
pub input-message :
    (env : Env) (f : Fields) (src dst : ℕ) (iface : IpInterface) (host : Host)
    → IsFields f
    → (bytes : List ℕ) × (message f.icmp_type f.code f.values f.icmp_data (length f.icmp_data)
        ≡ done bytes)
      × (input env bytes (length bytes) src dst iface host ≡ echoed env f src dst iface host)
unfolding message input
input-message env f src dst iface host v =
    let bytes = blank_bytes f in
    let small =
      All-append IsByte (header_bytes (blank f)) f.icmp_data
        (omega (arith, v.type_small, v.code_small)) v.data_bytes in
    let st =
      cksum16-stamp bytes (8 + length f.icmp_data) 0 2 (omega arith) (omega (arith, v.fits))
        (omega arith) small (refl, refl, refl) (omega arith) in
    let wide : length (stamp 2 st.0 bytes) ≡ 8 + length f.icmp_data = omega arith in
    let rest : 8 + length f.icmp_data - 8 ≡ length f.icmp_data = omega arith in
    let long : leb 8 (8 + length f.icmp_data) ≡ true = ground arith in
    (
      stamp 2 st.0 bytes,
      rw st.1 refl,
      ap (λ n. input env (stamp 2 st.0 bytes) n src dst iface host) wide
          ∙ rw (read-stamped f st.0 v, st.3, long, rest) refl,
    )
