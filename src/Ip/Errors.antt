-- ===== src/Ip/Errors.antt =====
-- Packets that `input` of src/protocols/ip/mod.rs and the handlers of its protocols turn down.
use rust_user_net.Base.{
  ℕ, ◌≡◌, ◌∙◌, refl, ap, ap₂, panic, fault, List, Option, none, some, Run, done, ◌>>=◌, ◌>>◌, Res,
  ok, err, not, ◌==◌, ◌%◌, ◌^◌, drop, leb, check, Option-cases, inl, inr, Ensures, Ensures-bind,
  Ensures-if, ◌-◌,
}
use rust_user_net.Utils.Byte.{be_to_le_u16}
use rust_user_net.Utils.Cksum.{cksum16}
use rust_user_net.Net.{NetInterfaceFamily}
use rust_user_net.Channel.{Channels}
use rust_user_net.Device.Types.{Env, get_interface}
use rust_user_net.Context.{Host}
use rust_user_net.Ip.Route.{IpInterface}
use rust_user_net.Ip.Header.{IpHeader, IpProtocolType, ip_protocol_from_u8, ip_protocol_as_u8}
use rust_user_net.Ip.Input.{Stack, dispatch, deliver, input, header_len_of}
use rust_user_net.Icmp
use rust_user_net.Udp.Pcbs.{UdpPcbs, UdpDataEntry, get_by_host}
use rust_user_net.Udp.Datagram
use rust_user_net.Udp.Datagram.{UdpHeader, udp_hdr_size}
use rust_user_net.Tcp.World.{World}
use rust_user_net.Tcp.Arrives

-- A call that answers with an error leaves the state as it was.
abbrev pub Untouched : {S : Type 0} → S → Res (Unit {0}) × S → Type 0
Untouched s (ok _, s') = Unit
Untouched s (err, s') = s' ≡ s

turned_down : {S : Type 0} (s : S) → Ensures (Untouched s) (done (err, s))
turned_down s = record { holds = refl }

answered : {S : Type 0} (s s' : S) → Ensures (Untouched s) (done (ok tt, s'))
answered s s' = record { holds = tt }

-- What a handler does to its part of the state is done to the whole.
within :
    {S T : Type 0} (s : S) (t : T) (put : T → S) (m : Run (Res (Unit {0}) × T))
    → put t ≡ s
    → Ensures (Untouched t) m
    → Ensures (Untouched s) (m >>= λ r. done (r.0, put r.1))
within s t put (done (ok _, t')) e h = record { holds = tt }
within s t put (done (err, t')) e h = record { holds = ap put h.holds ∙ e }
within s t put panic e h = record { holds = tt }
within s t put fault e h = record { holds = tt }

icmp-Untouched :
    (env : Env) (bytes : List ℕ) (len src dst : ℕ) (iface : IpInterface) (host : Host)
    → Ensures (Untouched host) (Icmp.input env bytes len src dst iface host)
unfolding Icmp.input
icmp-Untouched env bytes len src dst iface host =
    search (Ensures-bind, Ensures-if, turned_down, answered) depth 12

tcp-Untouched :
    (env : Env) (bytes : List ℕ) (len src dst : ℕ) (iface : IpInterface) (random : ℕ) (w : World)
    → Ensures (Untouched w) (Arrives.input env bytes len src dst iface random w)
unfolding Arrives.input
tcp-Untouched env bytes len src dst iface random w =
    search (Ensures-bind, Ensures-if, turned_down, answered) depth 14

abbrev UdpUntouched : UdpPcbs → Channels → Res (Unit {0}) × UdpPcbs × Channels → Type 0
UdpUntouched pcbs channels (ok _, pcbs', channels') = Unit
UdpUntouched pcbs channels (err, pcbs', channels') = (pcbs' ≡ pcbs) × (channels' ≡ channels)

udp_turned_down :
    (pcbs : UdpPcbs) (channels : Channels)
    → Ensures (UdpUntouched pcbs channels) (done (err, pcbs, channels))
udp_turned_down pcbs channels = record { holds = (refl, refl) }

udp_answered :
    (pcbs pcbs' : UdpPcbs) (channels channels' : Channels)
    → Ensures (UdpUntouched pcbs channels) (done (ok tt, pcbs', channels'))
udp_answered pcbs pcbs' channels channels' = record { holds = tt }

accept-Untouched :
    (pcbs : UdpPcbs) (channels : Channels) (pcb_id : ℕ) (entry : UdpDataEntry)
    → Ensures (UdpUntouched pcbs channels) (Datagram.accept pcbs channels pcb_id entry)
unfolding Datagram.accept
accept-Untouched pcbs channels pcb_id entry = search (Ensures-bind, udp_answered) depth 14

-- The block that a datagram is for, or none.
served :
    (bytes : List ℕ) (len src : ℕ) (pcbs : UdpPcbs) (channels : Channels) (header : UdpHeader)
    (found : Option ℕ)
    → Ensures (UdpUntouched pcbs channels) (elim found [
      | none ↦ done (err, pcbs, channels)
      | some pcb_id ↦ (do
        check (leb udp_hdr_size len)
        Datagram.accept pcbs channels pcb_id (record {
          remote_endpoint = record { address = src; port = header.src_port };
          len = len - udp_hdr_size;
          payload = drop udp_hdr_size bytes;
        }))
    ])
served bytes len src pcbs channels header none = udp_turned_down pcbs channels
served bytes len src pcbs channels header (some pcb_id) =
    search (Ensures-bind, accept-Untouched) depth 6

udp-Untouched :
    (bytes : List ℕ) (len src dst : ℕ) (pcbs : UdpPcbs) (channels : Channels)
    → Ensures (UdpUntouched pcbs channels) (Datagram.input bytes len src dst pcbs channels)
unfolding Datagram.input Datagram.accept
udp-Untouched bytes len src dst pcbs channels =
    Ensures-bind (Datagram.bytes_to_header bytes) (λ header.
      Ensures-bind (check (be_to_le_u16 header.len == len % 2 ^ 16)) (λ _.
        Ensures-bind (Datagram.pseudo_sum (ip_protocol_as_u8 IpProtocolType.udp) src dst header.len)
          (λ init. Ensures-bind (cksum16 bytes len init) (λ sum.
            Ensures-if (not (sum == 0)) (udp_turned_down pcbs channels)
              (served bytes len src pcbs channels header (get_by_host pcbs dst header.dst_port))))))

within_udp :
    (s : Stack) (m : Run (Res (Unit {0}) × UdpPcbs × Channels))
    → Ensures (UdpUntouched s.udp_pcbs s.channels) m
    → Ensures (Untouched s) (m >>= λ r. done (r.0, record s { udp_pcbs = r.1; channels = r.2 }))
within_udp s (done (ok _, pcbs, channels)) h = record { holds = tt }
within_udp s (done (err, pcbs, channels)) h = record {
  holds = ap₂ (λ p c. record s { udp_pcbs = p; channels = c }) h.holds.0 h.holds.1;
}
within_udp s panic h = record { holds = tt }
within_udp s fault h = record { holds = tt }

dispatch-Untouched :
    (env : Env) (proto : IpProtocolType) (bytes : List ℕ) (len src dst : ℕ) (iface : IpInterface)
    (random : ℕ) (s : Stack)
    → Ensures (Untouched s) (dispatch env proto bytes len src dst iface random s)
unfolding dispatch
dispatch-Untouched env IpProtocolType.icmp bytes len src dst iface random s =
    within s s.host (λ host. record s { host = host }) _ refl
      (icmp-Untouched env bytes len src dst iface s.host)
dispatch-Untouched env IpProtocolType.tcp bytes len src dst iface random s =
    within s (record { host = s.host; pcbs = s.tcp_pcbs; channels = s.channels })
      (λ w. record s { host = w.host; tcp_pcbs = w.pcbs; channels = w.channels }) _ refl
      (tcp-Untouched env bytes len src dst iface random _)
dispatch-Untouched env IpProtocolType.udp bytes len src dst iface random s =
    within_udp s _ (udp-Untouched bytes len src dst s.udp_pcbs s.channels)
dispatch-Untouched env IpProtocolType.unknown bytes len src dst iface random s = answered s s

deliver-Untouched :
    (env : Env) (bytes : List ℕ) (len : ℕ) (header : IpHeader) (header_len random : ℕ) (s : Stack)
    → Ensures (Untouched s) (deliver env bytes len header header_len random s)
unfolding deliver
deliver-Untouched env bytes len header header_len random s =
    elim (Option-cases (get_interface s.host.device NetInterfaceFamily.ip)) [
      | inl e ↦ rw (e, deliver) (answered s s)
      | inr (interface, e) ↦
          rw (e, deliver)
            (Ensures-if _ (turned_down s) (
              Ensures-bind _ (λ _.
                dispatch-Untouched env (ip_protocol_from_u8 header.protocol) (drop header_len bytes)
                  (len - header_len) header.src header.dst interface random s)))
    ]

checked-Untouched :
    (env : Env) (bytes : List ℕ) (len random : ℕ) (s : Stack) (header : IpHeader)
    (checked : Res (Unit {0}))
    → Ensures (Untouched s) (elim checked [
      | err ↦ done (err, s)
      | ok _ ↦ deliver env bytes len header (header_len_of header) random s
    ])
checked-Untouched env bytes len random s header err = turned_down s
checked-Untouched env bytes len random s header (ok _) =
    deliver-Untouched env bytes len header (header_len_of header) random s

-- A packet that `input` answers with an error - by its header, for another address, with a wrong
-- checksum, or for a port of UDP that no block serves - leaves the host, the blocks and the channels
-- as they were.
pub input-Untouched :
    (env : Env) (bytes : List ℕ) (len random : ℕ) (s : Stack)
    → Ensures (Untouched s) (input env bytes len random s)
unfolding input
input-Untouched env bytes len random s = search (Ensures-bind, checked-Untouched) depth 10
