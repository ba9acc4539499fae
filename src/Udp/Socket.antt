-- ===== src/Udp/Socket.antt =====
-- The commands of src/protocols/ip/udp.rs. `receive_from` waits between its two locks: it is
-- `receive_start`, a wait for a message, and `receive_wake`.
use rust_user_net.Base.{
  ℕ, zero, suc, ◌+◌, ◌-◌, List, [], ◌∷◌, Option, none, some, Bool, not, Run, done, panic, ◌>>=◌,
  ◌>>◌, check, unwrap, ◌==◌, if◌then◌else◌, get_elem?, set,
}
use rust_user_net.Channel.{Channels, new_channel, drop_receiver}
use rust_user_net.Device.Types.{Env}
use rust_user_net.Ip.Route.{IpEndpoint, ip_addr_any, new_endpoint, get_interface}
use rust_user_net.Context.{Host}
use rust_user_net.Udp.Pcbs.{
  UdpPcb, UdpPcbs, UdpPcbState, UdpDataEntry, state_eq, get_by_host, is_endpoint_used,
}
use rust_user_net.Udp.Datagram

abbrev pub udp_src_port_min : ℕ
udp_src_port_min = 49152

abbrev pub udp_src_port_max : ℕ
udp_src_port_max = 65535

-- The loop of `open`: the first free block is opened; `i` is its place.
unfoldable pub open_first : ℕ → List UdpPcb → Run (ℕ × List UdpPcb)
unfolding state_eq
open_first i [] = panic
open_first i (pcb ∷ pcbs) =
    let rest = open_first (i + 1) pcbs in
    if state_eq pcb.state UdpPcbState.free
    then done (i, record pcb { state = UdpPcbState.open_ } ∷ pcbs)
    else (do (j, pcbs') ← rest; done (j, pcb ∷ pcbs'))

unfoldable pub open_socket : UdpPcbs → Run (ℕ × UdpPcbs)
unfolding open_first
open_socket pcbs = do
  (i, entries) ← open_first 0 pcbs.entries
  done (i, record { entries = entries })

unfoldable pub bind : UdpPcbs → ℕ → IpEndpoint → Run UdpPcbs
bind pcbs pcb_id local_endpoint =
    elim (get_by_host pcbs local_endpoint.address local_endpoint.port) [
      | some _ ↦ panic
      | none ↦ (do
        entry ← unwrap (get_elem? pcbs.entries pcb_id)
        done (record {
          entries = set pcbs.entries pcb_id (record entry { local_endpoint = local_endpoint });
        }))
    ]

-- The loop over the ports from `p` on, with the rounds that are left; 0 if all are in use.
unfoldable pub free_port : (ℕ → Bool) → ℕ → ℕ → ℕ
free_port used zero p = 0
free_port used (suc left) p = let rest = free_port used left (p + 1) in if used p then rest else p

-- The local endpoint that `send_to` sends from.
unfoldable pub source_endpoint : UdpPcbs → UdpPcb → IpEndpoint → Host → Run IpEndpoint
unfolding free_port
source_endpoint pcbs pcb remote host = do
  let local = new_endpoint pcb.local_endpoint.address 0
  address ←
      (if local.address == ip_addr_any
        then (do
          interface ← unwrap (get_interface host.contexts.ip_routes remote.address)
          done interface.unicast)
        else done local.address)
  if pcb.local_endpoint.port == 0
      then (do
        let port =
            free_port (is_endpoint_used pcbs address) (udp_src_port_max - udp_src_port_min)
              udp_src_port_min
        check (not (port == 0))
        done (record { address = address; port = port }))
      else done (record { address = address; port = local.port })

unfoldable pub send_to : Env → UdpPcbs → ℕ → List ℕ → IpEndpoint → Host → Run Host
send_to env pcbs pcb_id payload remote host = do
  pcb ← unwrap (get_elem? pcbs.entries pcb_id)
  local ← source_endpoint pcbs pcb remote host
  Datagram.output env local remote payload host

-- `receive_from` up to the wait, with the receiver that it waits at.
unfoldable pub receive_start : UdpPcbs → ℕ → Channels → Run (ℕ × UdpPcbs × Channels)
receive_start pcbs pcb_id channels = do
  let (receiver, channels') = new_channel channels
  pcb ← unwrap (get_elem? pcbs.entries pcb_id)
  done (
    receiver,
    record { entries = set pcbs.entries pcb_id (record pcb { sender = some receiver }) },
    channels',
  )

unfoldable pub pop_entry : UdpPcbs → ℕ → UdpPcb → List UdpDataEntry → Option UdpDataEntry × UdpPcbs
pop_entry pcbs pcb_id pcb [] = (none, pcbs)
pop_entry pcbs pcb_id pcb (entry ∷ rest) =
    (some entry, record { entries = set pcbs.entries pcb_id (record pcb { data_entries = rest }) })

-- `receive_from` from the message that it was woken by.
unfoldable pub receive_wake :
    UdpPcbs → ℕ → ℕ → Bool → Channels → Run (Option UdpDataEntry × UdpPcbs × Channels)
unfolding pop_entry
receive_wake pcbs pcb_id receiver message channels =
    let channels' = drop_receiver channels receiver in
    if not message then done (none, pcbs, channels') else do
      pcb ← unwrap (get_elem? pcbs.entries pcb_id)
      if not (state_eq pcb.state UdpPcbState.open_) then done (none, pcbs, channels') else (do
        let (entry, pcbs') = pop_entry pcbs pcb_id pcb pcb.data_entries
        done (entry, pcbs', channels'))
