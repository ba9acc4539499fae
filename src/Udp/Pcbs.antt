-- ===== src/Udp/Pcbs.antt =====
-- `UdpPcb` and `UdpPcbs` of src/protocols/ip/udp.rs.
use rust_user_net.Base.{
  ℕ, ◌+◌, List, [], ◌∷◌, Option, none, some, Bool, true, false, ◌&&◌, ◌||◌, Run, done, ◌>>=◌, ◌>>◌,
  check, unwrap, ◌==◌, if◌then◌else◌, get_elem?, set, replicate,
}
use rust_user_net.Ip.Route.{IpEndpoint, ip_addr_any}
use rust_user_net.Channel.{Channels, send}

abbrev pub udp_pcb_count : ℕ
udp_pcb_count = 16

pub data UdpPcbState : Type 0 where
  free open_ closing : UdpPcbState

-- `==` on states.
unfoldable pub state_eq : UdpPcbState → UdpPcbState → Bool
state_eq UdpPcbState.free UdpPcbState.free = true
state_eq UdpPcbState.open_ UdpPcbState.open_ = true
state_eq UdpPcbState.closing UdpPcbState.closing = true
state_eq _ _ = false

pub record UdpDataEntry : Type 0 where
  pub remote_endpoint : IpEndpoint
  pub len : ℕ
  pub payload : List ℕ

pub record UdpPcb : Type 0 where
  pub state : UdpPcbState
  pub local_endpoint : IpEndpoint
  pub sender : Option ℕ
  pub data_entries : List UdpDataEntry

abbrev pub any_endpoint : IpEndpoint
any_endpoint = record { address = ip_addr_any; port = 0 }

-- `UdpPcb::new`.
abbrev pub new_pcb : UdpPcb
new_pcb = record {
  state = UdpPcbState.free;
  local_endpoint = any_endpoint;
  sender = none;
  data_entries = [];
}

pub record UdpPcbs : Type 0 where
  pub entries : List UdpPcb

-- `UdpPcbs::new`.
abbrev pub new_pcbs : UdpPcbs
new_pcbs = record { entries = replicate udp_pcb_count new_pcb }

-- The test of `get_by_host` and `is_endpoint_used` on one block.
unfoldable pub serves : UdpPcb → ℕ → ℕ → Bool
unfolding state_eq
serves pcb host_addr host_port =
    state_eq pcb.state UdpPcbState.open_
    && ((pcb.local_endpoint.address == ip_addr_any
          || host_addr == ip_addr_any
          || pcb.local_endpoint.address == host_addr)
        && pcb.local_endpoint.port == host_port)

-- `get_by_host`, as the place of the block in the table: `find_host` counts from `i`.
unfoldable pub find_host : ℕ → List UdpPcb → ℕ → ℕ → Option ℕ
unfolding serves
find_host i [] host_addr host_port = none
find_host i (pcb ∷ pcbs) host_addr host_port =
    if serves pcb host_addr host_port then some i else find_host (i + 1) pcbs host_addr host_port

unfoldable pub get_by_host : UdpPcbs → ℕ → ℕ → Option ℕ
unfolding find_host
get_by_host pcbs host_addr host_port = find_host 0 pcbs.entries host_addr host_port

unfoldable pub any_serves : List UdpPcb → ℕ → ℕ → Bool
unfolding serves
any_serves [] host_addr host_port = false
any_serves (pcb ∷ pcbs) host_addr host_port =
    if serves pcb host_addr host_port then true else any_serves pcbs host_addr host_port

unfoldable pub is_endpoint_used : UdpPcbs → ℕ → ℕ → Bool
unfolding any_serves
is_endpoint_used pcbs host_addr host_port = any_serves pcbs.entries host_addr host_port

-- The wake-up of a closing block; a receiver that is gone makes it panic.
notify : Option ℕ → Bool → Channels → Run Channels
notify none message channels = done channels
notify (some sender) message channels =
    let (sent, channels') = send channels sender message in check sent >> done channels'

-- `delete_entry`.
unfoldable pub delete_entry : UdpPcbs → ℕ → Channels → Run (UdpPcbs × Channels)
unfolding notify
delete_entry pcbs pcb_id channels = do
  entry ← unwrap (get_elem? pcbs.entries pcb_id)
  channels' ← notify entry.sender false channels
  let entry' : UdpPcb = record {
    state = UdpPcbState.free;
    local_endpoint = any_endpoint;
    sender = entry.sender;
    data_entries = [];
  }
  done (record { entries = set pcbs.entries pcb_id entry' }, channels')

notify_all : List UdpPcb → Channels → Run Channels
unfolding notify
notify_all [] channels = done channels
notify_all (pcb ∷ pcbs) channels = do
  channels' ← notify pcb.sender false channels
  notify_all pcbs channels'

-- `UdpPcbs::close_sockets`.
unfoldable pub close_sockets : UdpPcbs → Channels → Run Channels
unfolding notify_all
close_sockets pcbs channels = notify_all pcbs.entries channels
