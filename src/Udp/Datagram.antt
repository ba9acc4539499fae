-- ===== src/Udp/Datagram.antt =====
-- `input` and `output` of src/protocols/ip/udp.rs. The compiler may order the fields of the two
-- headers, which are not packed, as it likes; they stand here as they are declared. The sum of the
-- pseudo header is the same for each order that the alignment of its fields allows.
use rust_user_net.Base.{
  ℕ, ◌+◌, ◌-◌, ◌/◌, ◌%◌, ◌^◌, bit_and, List, [], ◌∷◌, ◌++◌, none, some, true, not, Run, done, fault,
  ◌>>=◌, ◌>>◌, check, unwrap, unwrap_res, Res, ok, err, leb, ◌==◌, if◌then◌else◌, length, drop,
  get_elem?, set,
}
use rust_user_net.Utils.Byte.{be_to_le_u16, le_to_be_u16, bytes_u16, bytes_u32, of_bytes_u16}
use rust_user_net.Utils.Cksum.{cksum16, not_u16}
use rust_user_net.Channel.{Channels, send}
use rust_user_net.Device.Types.{Env}
use rust_user_net.Device.Ethernet.{byte_at}
use rust_user_net.Ip.Route.{IpEndpoint}
use rust_user_net.Ip.Header.{IpProtocolType, ip_protocol_as_u8}
use rust_user_net.Ip.Output
use rust_user_net.Context.{Host}
use rust_user_net.Udp.Pcbs.{UdpPcbs, UdpDataEntry, get_by_host}

pub record PseudoHeader : Type 0 where
  pub src : ℕ
  pub dst : ℕ
  pub zero_ : ℕ
  pub protocol : ℕ
  pub len : ℕ

-- `to_u8_slice` of the pseudo header.
abbrev pub pseudo_bytes : PseudoHeader → List ℕ
pseudo_bytes h = bytes_u32 h.src ++ (bytes_u32 h.dst ++ (h.zero_ ∷ h.protocol ∷ bytes_u16 h.len))

abbrev pub pseudo_header_size : ℕ
pseudo_header_size = 12

pub record UdpHeader : Type 0 where
  pub src_port : ℕ
  pub dst_port : ℕ
  pub len : ℕ
  pub checksum : ℕ

abbrev pub udp_hdr_size : ℕ
udp_hdr_size = 8

-- `IP_PAYLOAD_MAX_SIZE`.
abbrev pub ip_payload_max_size : ℕ
ip_payload_max_size = 65515

-- `to_u8_slice::<UdpHeader>`.
abbrev pub header_bytes : UdpHeader → List ℕ
header_bytes h =
    bytes_u16 h.src_port ++ (bytes_u16 h.dst_port ++ (bytes_u16 h.len ++ bytes_u16 h.checksum))

-- `bytes_to_struct::<UdpHeader>`, which reads 8 bytes whatever the slice holds.
unfoldable pub bytes_to_header : List ℕ → Run UdpHeader
bytes_to_header bytes =
    if leb udp_hdr_size (length bytes)
    then done (record {
      src_port = of_bytes_u16 (byte_at bytes 0) (byte_at bytes 1);
      dst_port = of_bytes_u16 (byte_at bytes 2) (byte_at bytes 3);
      len = of_bytes_u16 (byte_at bytes 4) (byte_at bytes 5);
      checksum = of_bytes_u16 (byte_at bytes 6) (byte_at bytes 7);
    })
    else fault

-- The sum from which the checksum of the datagram is taken: that of the pseudo header.
unfoldable pub pseudo_sum : ℕ → ℕ → ℕ → ℕ → Run ℕ
pseudo_sum protocol src dst len = do
  let pseudo : PseudoHeader = record {
    src = src;
    dst = dst;
    zero_ = 0;
    protocol = protocol;
    len = len;
  }
  sum ← cksum16 (pseudo_bytes pseudo) pseudo_header_size 0
  done (not_u16 sum)

-- The block takes the data, and its sender is woken.
unfoldable pub accept :
    UdpPcbs → Channels → ℕ → UdpDataEntry → Run (Res (Unit {0}) × UdpPcbs × Channels)
accept pcbs channels pcb_id entry = do
  pcb ← unwrap (get_elem? pcbs.entries pcb_id)
  let pcb' = record pcb { data_entries = pcb.data_entries ++ entry ∷ [] }
  sender ← unwrap pcb.sender
  let (sent, channels') = send channels sender true
  check sent
  done (ok tt, record { entries = set pcbs.entries pcb_id pcb' }, channels')

unfoldable pub input :
    List ℕ → ℕ → ℕ → ℕ → UdpPcbs → Channels → Run (Res (Unit {0}) × UdpPcbs × Channels)
unfolding accept
input bytes len src dst pcbs channels = do
  header ← bytes_to_header bytes
  check (be_to_le_u16 header.len == len % 2 ^ 16)
  init ← pseudo_sum (ip_protocol_as_u8 IpProtocolType.udp) src dst header.len
  sum ← cksum16 bytes len init
  if not (sum == 0)
      then done (err, pcbs, channels)
      else elim (get_by_host pcbs dst header.dst_port) [
        | none ↦ done (err, pcbs, channels)
        | some pcb_id ↦ (do
          check (leb udp_hdr_size len)
          accept pcbs channels pcb_id (record {
            remote_endpoint = record { address = src; port = header.src_port };
            len = len - udp_hdr_size;
            payload = drop udp_hdr_size bytes;
          }))
      ]

-- The datagram of `output`, with its checksum over bytes 6 and 7.
unfoldable pub datagram : IpEndpoint → IpEndpoint → List ℕ → Run (List ℕ)
datagram src dst udp_data = do
  let len = length udp_data
  check (leb len (ip_payload_max_size - udp_hdr_size))
  let total_len = udp_hdr_size + len
  let total_len_in_be = le_to_be_u16 (total_len % 2 ^ 16)
  init ← pseudo_sum (ip_protocol_as_u8 IpProtocolType.udp) src.address dst.address total_len_in_be
  let udp_header : UdpHeader = record {
    src_port = src.port;
    dst_port = dst.port;
    len = total_len_in_be;
    checksum = 0;
  }
  let bytes = header_bytes udp_header ++ udp_data
  sum ← cksum16 bytes total_len init
  done (set (set bytes 6 (bit_and sum 0xff00 / 2 ^ 8 % 2 ^ 8)) 7 (bit_and sum 0xff % 2 ^ 8))

unfoldable pub output : Env → IpEndpoint → IpEndpoint → List ℕ → Host → Run Host
output env src dst udp_data host = do
  bytes ← datagram src dst udp_data
  (res, host') ← Output.output env IpProtocolType.udp bytes src.address dst.address host
  unwrap_res res
  done host'
