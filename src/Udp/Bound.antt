-- ===== src/Udp/Bound.antt =====
-- The block that `bind` of src/protocols/ip/udp.rs gives an endpoint to.
use rust_user_net.Base.{
  ℕ, zero, suc, ◌+◌, ◌≡◌, refl, ap, List, [], ◌∷◌, Option, none, some, Bool, true, false, ◌&&◌,
  ◌||◌, arith, ◌∙◌, eq→==, ◌==◌, if◌then◌else◌, get_elem?, set, done,
}
use rust_user_net.Ip.Route.{IpEndpoint, ip_addr_any}
use rust_user_net.Udp.Pcbs.{UdpPcb, UdpPcbs, UdpPcbState, state_eq, serves, find_host, get_by_host}
use rust_user_net.Udp.Socket.{bind}

if_none :
    (b : Bool) (i : ℕ) (rest : Option ℕ)
    → (if b then some i else rest) ≡ none
    → (b ≡ false) × (rest ≡ none)
if_none true i rest h = cc
if_none false i rest h = (refl, h)

-- With its place counted from `i`: in a list that serves an endpoint nowhere, the block that is
-- written is found.
find_host-set :
    (i k : ℕ) (pcbs : List UdpPcb) (old new : UdpPcb) (host_addr host_port : ℕ)
    → get_elem? pcbs k ≡ some old
    → find_host i pcbs host_addr host_port ≡ none
    → serves new host_addr host_port ≡ true
    → find_host i (set pcbs k new) host_addr host_port ≡ some (i + k)
unfolding find_host
find_host-set i k [] old new host_addr host_port there miss hit = cc
find_host-set i zero (pcb ∷ pcbs) old new host_addr host_port there miss hit =
    rw hit (ap some (omega arith))
find_host-set i (suc k) (pcb ∷ pcbs) old new host_addr host_port there miss hit =
    let missed =
      if_none (serves pcb host_addr host_port) i (find_host (i + 1) pcbs host_addr host_port)
        miss in
    rw missed.0 (
      find_host-set (i + 1) k pcbs old new host_addr host_port there missed.1 hit
      ∙ ap some (omega arith))

serves-own :
    (pcb : UdpPcb) (local : IpEndpoint)
    → pcb.state ≡ UdpPcbState.open_
    → serves (record pcb { local_endpoint = local }) local.address local.port ≡ true
unfolding serves state_eq
serves-own pcb local h =
    rw (h, eq→== local.address local.address refl, eq→== local.port local.port refl)
      (or_true (local.address == ip_addr_any))
  where
    or_true : (b : Bool) → ((b || b || true) && true) ≡ true
    or_true true = refl
    or_true false = refl

-- An open block that is bound to an endpoint which no block serves is from then on the one that
-- `get_by_host` answers with for this endpoint.
pub bind-get_by_host :
    (pcbs : UdpPcbs) (pcb_id : ℕ) (pcb : UdpPcb) (local : IpEndpoint)
    → get_elem? pcbs.entries pcb_id ≡ some pcb
    → pcb.state ≡ UdpPcbState.open_
    → get_by_host pcbs local.address local.port ≡ none
    → (pcbs' : UdpPcbs) × (bind pcbs pcb_id local ≡ done pcbs')
      × (get_by_host pcbs' local.address local.port ≡ some pcb_id)
unfolding bind
bind-get_by_host pcbs pcb_id pcb local there is_open free = (
  record { entries = set pcbs.entries pcb_id (record pcb { local_endpoint = local }) },
  rw (bind, free, there) refl,
  unfold get_by_host in
      (find_host-set 0 pcb_id pcbs.entries pcb (record pcb { local_endpoint = local }) local.address
          local.port there free (serves-own pcb local is_open)
        ∙ ap some (omega arith)),
)
