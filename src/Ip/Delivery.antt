-- ===== src/Ip/Delivery.antt =====
-- A packet with a header of `create_ip_header`, at `input` of another host.
use rust_user_net.Base.{
  ℕ, ◌+◌, ◌-◌, ◌^◌, ◌≤◌, ◌<◌, ◌≡◌, refl, ap, List, ◌++◌, true, done, some, length, arith, ◌∙◌, leb,
  ◌==◌, eq→==,
}
use rust_user_net.Net.{NetInterfaceFamily}
use rust_user_net.Device.Types.{Env, get_interface}
use rust_user_net.Ip.Route.{IpInterface}
use rust_user_net.Ip.Header.{
  IpProtocolType, IpHeader, header_bytes, blank_header, create_ip_header, ip_protocol_from_u8,
  ip_protocol_as_u8,
}
use rust_user_net.Ip.Header.Valid.{
  created, create_ip_header_lem, check-created, created-IsWord, bytes_to_header-header_bytes,
}
use rust_user_net.Ip.Input.{Stack, dispatch, deliver, header_len_of, input}

ip_protocol_from_u8-as_u8 : (p : IpProtocolType) → ip_protocol_from_u8 (ip_protocol_as_u8 p) ≡ p
unfolding ip_protocol_from_u8
ip_protocol_from_u8-as_u8 IpProtocolType.icmp = refl
ip_protocol_from_u8-as_u8 IpProtocolType.tcp = refl
ip_protocol_from_u8-as_u8 IpProtocolType.udp = refl
ip_protocol_from_u8-as_u8 IpProtocolType.unknown = refl

-- What the receiver reads in a header that passed the check.
record IsAddressed (p : IpProtocolType) (src dst : ℕ) (h : IpHeader) : Type 0 where
  protocol : ip_protocol_from_u8 h.protocol ≡ p
  from : h.src ≡ src
  to : h.dst ≡ dst

deliver-IsAddressed :
    (env : Env) (p : IpProtocolType) (src dst random : ℕ) (payload : List ℕ) (h : IpHeader)
    (iface : IpInterface) (s : Stack)
    → IsAddressed p src dst h
    → get_interface s.host.device NetInterfaceFamily.ip ≡ some iface
    → iface.unicast ≡ dst
    → deliver env (header_bytes h ++ payload) (20 + length payload) h 20 random s
      ≡ dispatch env p payload (length payload) src dst iface random s
unfolding deliver
deliver-IsAddressed env p src dst random payload h iface s a found unicast =
    let same : (iface.unicast == dst) ≡ true = eq→== iface.unicast dst unicast in
    let long : leb 20 (length (header_bytes h ++ payload)) ≡ true = ground arith in
    let rest : 20 + length payload - 20 ≡ length payload = omega arith in
    rw (deliver, found, a.to, same, long, a.protocol, a.from, rest) refl

-- The parameters of a packet: a payload that fits, and a header of its widths.
module _ (p : IpProtocolType) (src dst id : ℕ) (payload : List ℕ)
    (fits : length payload ≤ 65515) where
  abbrev pub header : IpHeader
  header = created p src dst id payload fits

  abbrev pub packet : List ℕ
  packet = header_bytes header ++ payload

  header-IsAddressed : IsAddressed p src dst header
  unfolding blank_header
  header-IsAddressed = record { protocol = ip_protocol_from_u8-as_u8 p; from = refl; to = refl }

  header_len_of-header : header_len_of header ≡ 20
  unfolding blank_header
  header_len_of-header = refl

  -- The packet, with its length, at `input`.
  pub input-packet :
      (env : Env) (iface : IpInterface) (random : ℕ) (s : Stack)
      → id < 2 ^ 16
      → src < 2 ^ 32
      → dst < 2 ^ 32
      → get_interface s.host.device NetInterfaceFamily.ip ≡ some iface
      → iface.unicast ≡ dst
      → input env packet (20 + length payload) random s
        ≡ dispatch env p payload (length payload) src dst iface random s
  unfolding input blank_header
  input-packet env iface random s id_small src_small dst_small found unicast =
      let long : leb 20 (20 + length payload) ≡ true = ground arith in
      rw
        (
          long,
          bytes_to_header-header_bytes header payload
              (created-IsWord p src dst id payload fits id_small src_small dst_small),
          header_len_of-header,
          check-created p src dst id payload fits,
        )
        (deliver-IsAddressed env p src dst random payload header iface s header-IsAddressed found
          unicast)

  -- A packet of a payload that fits, with the header that `create_ip_header` makes for it, is
  -- accepted by the host whose address is its destination: the payload, with its length and the two
  -- addresses, goes to the handler of the protocol that the header was made for.
  pub input-create_ip_header :
      (env : Env) (iface : IpInterface) (random : ℕ) (s : Stack)
      → id < 2 ^ 16
      → src < 2 ^ 32
      → dst < 2 ^ 32
      → get_interface s.host.device NetInterfaceFamily.ip ≡ some iface
      → iface.unicast ≡ dst
      → (h : IpHeader) × (create_ip_header p src dst payload id ≡ done h)
        × (input env (header_bytes h ++ payload) (length (header_bytes h ++ payload)) random s
            ≡ dispatch env p payload (length payload) src dst iface random s)
  input-create_ip_header env iface random s id_small src_small dst_small found unicast = (
    header,
    create_ip_header_lem p src dst id payload fits,
    ap (λ n. input env packet n random s) (omega arith)
        ∙ input-packet env iface random s id_small src_small dst_small found unicast,
  )
