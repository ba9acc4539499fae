-- ===== src/Ip/Input.antt =====
-- `input` of src/protocols/ip/mod.rs: the check of a packet, and the handler of its protocol.
use rust_user_net.Base.{
  ℕ, ◌-◌, ◌*◌, ◌^◌, bit_and, List, none, some, not, Run, done, ◌>>=◌, ◌>>◌, check, Res, ok, err,
  leb, ◌==◌, if◌then◌else◌, length, drop,
}
use rust_user_net.Net.{NetInterfaceFamily}
use rust_user_net.Channel.{Channels}
use rust_user_net.Device.Types.{Env, get_interface}
use rust_user_net.Ip.Route.{IpInterface}
use rust_user_net.Ip.Header.{
  IpHeader, IpProtocolType, ip_header_min_size, bytes_to_header, check_ip_header,
  ip_protocol_from_u8,
}
use rust_user_net.Context.{Host}
use rust_user_net.Icmp
use rust_user_net.Udp.Pcbs.{UdpPcbs}
use rust_user_net.Udp.Datagram
use rust_user_net.Tcp.Types.{TcpPcb}
use rust_user_net.Tcp.World.{World}
use rust_user_net.Tcp.Arrives

-- `ControlBlocks` with the channels of its blocks, and the host.
pub record Stack : Type 0 where
  pub host : Host
  pub udp_pcbs : UdpPcbs
  pub tcp_pcbs : List TcpPcb
  pub channels : Channels

-- The handler of the packet's protocol, on what stands behind the header.
unfoldable pub dispatch :
    Env
    → IpProtocolType
    → List ℕ
    → ℕ
    → ℕ
    → ℕ
    → IpInterface
    → ℕ
    → Stack
    → Run (Res (Unit {0}) × Stack)
dispatch env IpProtocolType.icmp bytes len src dst iface random s = do
  (res, host) ← Icmp.input env bytes len src dst iface s.host
  done (res, record s { host = host })
dispatch env IpProtocolType.tcp bytes len src dst iface random s = do
  let world : World = record { host = s.host; pcbs = s.tcp_pcbs; channels = s.channels }
  (res, w) ← Arrives.input env bytes len src dst iface random world
  done (res, record s { host = w.host; tcp_pcbs = w.pcbs; channels = w.channels })
dispatch env IpProtocolType.udp bytes len src dst iface random s = do
  (res, pcbs, channels) ← Datagram.input bytes len src dst s.udp_pcbs s.channels
  done (res, record s { udp_pcbs = pcbs; channels = channels })
dispatch env IpProtocolType.unknown bytes len src dst iface random s = done (ok tt, s)

-- A packet whose header passed the check.
unfoldable pub deliver : Env → List ℕ → ℕ → IpHeader → ℕ → ℕ → Stack → Run (Res (Unit {0}) × Stack)
deliver env bytes len header header_len random s =
    elim (get_interface s.host.device NetInterfaceFamily.ip) [
      | none ↦ done (ok tt, s)
      | some interface ↦
          (if not (interface.unicast == header.dst) then done (err, s) else do
            check (leb header_len (length bytes))
            dispatch env (ip_protocol_from_u8 header.protocol) (drop header_len bytes)
                (len - header_len) header.src header.dst interface random s)
    ]

-- `(header.ver_len & 0x0f) << 2`.
abbrev pub header_len_of : IpHeader → ℕ
header_len_of header = bit_and header.ver_len 0x0f * 2 ^ 2

unfoldable pub input : Env → List ℕ → ℕ → ℕ → Stack → Run (Res (Unit {0}) × Stack)
input env bytes len random s = do
  check (leb ip_header_min_size len)
  header ← bytes_to_header bytes
  checked ← check_ip_header header len (header_len_of header)
  elim checked [
    | err ↦ done (err, s)
    | ok _ ↦ deliver env bytes len header (header_len_of header) random s
  ]
