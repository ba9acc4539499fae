-- ===== src/Ip/Header.antt =====
-- `IPHeader` of src/protocols/ip/mod.rs: its bytes, `create_ip_header` and `check_ip_header`.
pub mod Valid
use rust_user_net.Base.{
  ℕ, ◌+◌, ◌*◌, ◌/◌, ◌%◌, ◌^◌, bit_and, bit_or, List, [], ◌∷◌, ◌++◌, Bool, true, false, not, ◌||◌,
  Run, done, fault, ◌>>=◌, ◌>>◌, check, Res, ok, err, ltb, leb, ◌==◌, if◌then◌else◌, length,
}
use rust_user_net.Utils.Byte.{
  be_to_le_u16, le_to_be_u16, bytes_u16, bytes_u32, of_bytes_u16, of_bytes_u32,
}
use rust_user_net.Utils.Cksum.{cksum16}
use rust_user_net.Device.Ethernet.{byte_at}

pub data IpProtocolType : Type 0 where
  icmp tcp udp unknown : IpProtocolType

-- `IPProtocolType::from_u8`.
unfoldable pub ip_protocol_from_u8 : ℕ → IpProtocolType
ip_protocol_from_u8 value =
    if value == 0x01
    then IpProtocolType.icmp
    else if value == 0x06
    then IpProtocolType.tcp
    else if value == 0x11
    then IpProtocolType.udp
    else IpProtocolType.unknown

-- `ip_proto as u8`.
abbrev pub ip_protocol_as_u8 : IpProtocolType → ℕ
ip_protocol_as_u8 IpProtocolType.icmp = 0x01
ip_protocol_as_u8 IpProtocolType.tcp = 0x06
ip_protocol_as_u8 IpProtocolType.udp = 0x11
ip_protocol_as_u8 IpProtocolType.unknown = 0x12

pub record IpHeader : Type 0 where
  pub ver_len : ℕ
  pub service_type : ℕ
  pub total_len : ℕ
  pub id : ℕ
  pub offset : ℕ
  pub ttl : ℕ
  pub protocol : ℕ
  pub check_sum : ℕ
  pub src : ℕ
  pub dst : ℕ

abbrev pub ip_header_size : ℕ
ip_header_size = 20

abbrev pub ip_header_min_size : ℕ
ip_header_min_size = 20

abbrev pub ip_version_4 : ℕ
ip_version_4 = 4

-- `to_u8_slice::<IPHeader>`.
abbrev pub header_bytes : IpHeader → List ℕ
header_bytes h =
    h.ver_len
    ∷ h.service_type
    ∷ (bytes_u16 h.total_len
        ++ (bytes_u16 h.id
            ++ (bytes_u16 h.offset
                ++ (h.ttl
                    ∷ h.protocol
                    ∷ (bytes_u16 h.check_sum ++ (bytes_u32 h.src ++ bytes_u32 h.dst))))))

-- The fields at their offsets.
abbrev pub header_at : List ℕ → IpHeader
header_at bytes = record {
  ver_len = byte_at bytes 0;
  service_type = byte_at bytes 1;
  total_len = of_bytes_u16 (byte_at bytes 2) (byte_at bytes 3);
  id = of_bytes_u16 (byte_at bytes 4) (byte_at bytes 5);
  offset = of_bytes_u16 (byte_at bytes 6) (byte_at bytes 7);
  ttl = byte_at bytes 8;
  protocol = byte_at bytes 9;
  check_sum = of_bytes_u16 (byte_at bytes 10) (byte_at bytes 11);
  src = of_bytes_u32 (byte_at bytes 12) (byte_at bytes 13) (byte_at bytes 14) (byte_at bytes 15);
  dst = of_bytes_u32 (byte_at bytes 16) (byte_at bytes 17) (byte_at bytes 18) (byte_at bytes 19);
}

-- `bytes_to_struct::<IPHeader>`, which reads 20 bytes whatever the slice holds.
unfoldable pub bytes_to_header : List ℕ → Run IpHeader
bytes_to_header bytes = if leb ip_header_size (length bytes) then done (header_at bytes) else fault

-- The header before its checksum is taken. `hlen as u16 + len as u16` is checked.
unfoldable pub blank_header : IpProtocolType → ℕ → ℕ → ℕ → ℕ → IpHeader
blank_header ip_proto src dst total id = record {
  ver_len = bit_or (ip_version_4 * 2 ^ 4 % 2 ^ 8) (ip_header_size / 2 ^ 2);
  service_type = 0;
  total_len = le_to_be_u16 total;
  id = le_to_be_u16 id;
  offset = 0;
  ttl = 0xff;
  protocol = ip_protocol_as_u8 ip_proto;
  check_sum = 0;
  src = src;
  dst = dst;
}

unfoldable pub create_ip_header : IpProtocolType → ℕ → ℕ → List ℕ → ℕ → Run IpHeader
create_ip_header ip_proto src dst payload id = do
  let total = ip_header_size + length payload % 2 ^ 16
  check (ltb total (2 ^ 16))
  let header = blank_header ip_proto src dst total id
  sum ← cksum16 (header_bytes header) ip_header_size 0
  done (record header { check_sum = le_to_be_u16 sum })

unfoldable pub check_ip_header : IpHeader → ℕ → ℕ → Run (Res (Unit {0}))
check_ip_header header data_len header_len =
    if not (header.ver_len / 2 ^ 4 == ip_version_4)
    then done err
    else if ltb data_len header_len
    then done err
    else if ltb data_len (be_to_le_u16 header.total_len)
    then done err
    else do
      sum ← cksum16 (header_bytes header) header_len 0
      let offset = be_to_le_u16 header.offset
      if not (sum == 0)
          then done err
          else if ltb 0 (bit_and offset 0x2000) || ltb 0 (bit_and offset 0x1fff)
          then done err
          else done (ok tt)
