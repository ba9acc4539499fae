-- ===== src/Icmp.antt =====
-- src/protocols/ip/icmp.rs: the echo reply.
pub mod Echo
use rust_user_net.Base.{
  ℕ, ◌+◌, ◌-◌, ◌/◌, ◌%◌, ◌^◌, bit_and, List, ◌∷◌, ◌++◌, not, Run, done, fault, ◌>>=◌, ◌>>◌, check,
  unwrap_res, Res, ok, err, leb, ◌==◌, if◌then◌else◌, length, drop, set,
}
use rust_user_net.Utils.Byte.{bytes_u16, bytes_u32, of_bytes_u16, of_bytes_u32}
use rust_user_net.Utils.Cksum.{cksum16}
use rust_user_net.Device.Types.{Env}
use rust_user_net.Device.Ethernet.{byte_at}
use rust_user_net.Ip.Route.{IpInterface}
use rust_user_net.Ip.Header.{IpProtocolType}
use rust_user_net.Ip.Output
use rust_user_net.Context.{Host}

abbrev pub icmp_type_echoreply : ℕ
icmp_type_echoreply = 0

abbrev pub icmp_type_echo : ℕ
icmp_type_echo = 8

pub record IcmpHeader : Type 0 where
  pub icmp_type : ℕ
  pub code : ℕ
  pub check_sum : ℕ
  pub values : ℕ

abbrev pub icmp_hdr_size : ℕ
icmp_hdr_size = 8

-- `to_u8_slice::<ICMPHeader>`.
abbrev pub header_bytes : IcmpHeader → List ℕ
header_bytes hdr = hdr.icmp_type ∷ hdr.code ∷ (bytes_u16 hdr.check_sum ++ bytes_u32 hdr.values)

-- `bytes_to_struct::<ICMPHeader>`, which reads 8 bytes whatever the slice holds.
unfoldable pub bytes_to_header : List ℕ → Run IcmpHeader
bytes_to_header bytes =
    if leb icmp_hdr_size (length bytes)
    then done (record {
      icmp_type = byte_at bytes 0;
      code = byte_at bytes 1;
      check_sum = of_bytes_u16 (byte_at bytes 2) (byte_at bytes 3);
      values = of_bytes_u32 (byte_at bytes 4) (byte_at bytes 5) (byte_at bytes 6) (byte_at bytes 7);
    })
    else fault

-- The checksum of a message, written over its field: bytes 2 and 3.
unfoldable pub message : ℕ → ℕ → ℕ → List ℕ → ℕ → Run (List ℕ)
message icmp_type code values icmp_data len = do
  let hdr : IcmpHeader = record {
    icmp_type = icmp_type;
    code = code;
    check_sum = 0;
    values = values;
  }
  let bytes = header_bytes hdr ++ icmp_data
  sum ← cksum16 bytes (icmp_hdr_size + len) 0
  done (set (set bytes 2 (bit_and sum 0xff00 / 2 ^ 8 % 2 ^ 8)) 3 (bit_and sum 0xff % 2 ^ 8))

unfoldable pub output : Env → ℕ → ℕ → ℕ → List ℕ → ℕ → ℕ → ℕ → Host → Run Host
output env icmp_type code values icmp_data len src dst host = do
  bytes ← message icmp_type code values icmp_data len
  (res, host') ← Output.output env IpProtocolType.icmp bytes src dst host
  unwrap_res res
  done host'

unfoldable pub input : Env → List ℕ → ℕ → ℕ → ℕ → IpInterface → Host → Run (Res (Unit {0}) × Host)
input env bytes len src dst iface host = do
  hdr ← bytes_to_header bytes
  sum ← cksum16 bytes len 0
  if not (sum == 0)
      then done (err, host)
      else if hdr.icmp_type == icmp_type_echo
      then (do
        check (leb icmp_hdr_size len)
        let dst' = if not (dst == iface.unicast) then iface.unicast else dst
        host' ←
            output env icmp_type_echoreply hdr.code hdr.values (drop icmp_hdr_size bytes)
              (len - icmp_hdr_size) dst' src host
        done (ok tt, host'))
      else done (ok tt, host)
