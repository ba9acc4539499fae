-- ===== src/Tcp/Ports.antt =====
-- The source ports of src/protocols/ip/tcp.rs: what `connect` takes for a block that is not bound.
use rust_user_net.Base.{
  ℕ, zero, suc, ◌+◌, ◌*◌, ◌/◌, ◌%◌, ◌-◌, Bool, ◌≡◌, refl, not, true, ◌==◌, if◌then◌else◌, Ensures,
  Ensures-done, Ensures-bind, Ensures-check, Ensures-weaken, eq→==, sym, false,
}
use mathlib.Core.Bool.{true≢false}
use rust_user_net.Utils.Byte.{be_to_le_u16, le_to_be_u16, byte_swap_u16}
use rust_user_net.Ip.Route.{IpEndpoint, new_endpoint}
use rust_user_net.Ip.Ports.{IsChosen, last-IsChosen, round-IsChosen, be_to_le_u16-stored}
use rust_user_net.Tcp.Types.{TcpPcb, tcp_src_port_min, tcp_src_port_max}
use rust_user_net.Tcp.World.{World}
use rust_user_net.Tcp.Commands.{dynamic_port, connect_port, connect_endpoint, is_taken}

dynamic_port-IsChosen :
    (taken : ℕ → Bool) (left p last : ℕ)
    → IsChosen taken p (p + suc left) (dynamic_port taken (suc left) p last)
unfolding dynamic_port
dynamic_port-IsChosen taken zero p last = last-IsChosen taken p (taken p) refl
dynamic_port-IsChosen taken (suc left) p last =
    round-IsChosen taken (suc left) p _ (taken p) refl (dynamic_port-IsChosen taken left (p + 1) p)

IsChosen-if :
    (taken : ℕ → Bool) (b : Bool) (q : ℕ)
    → b ≡ true
    → IsChosen taken tcp_src_port_min tcp_src_port_max (
        if b
        then dynamic_port taken (tcp_src_port_max - tcp_src_port_min) tcp_src_port_min 0
        else q)
IsChosen-if taken true q h = dynamic_port-IsChosen taken 16382 tcp_src_port_min 0
IsChosen-if taken false q h = absurd (true≢false (sym h))

connect_port-IsChosen :
    (local remote : IpEndpoint) (w : World) (address : ℕ)
    → local.port ≡ 0
    → IsChosen
        (is_taken w remote address)
        tcp_src_port_min
        tcp_src_port_max
        (connect_port local remote w address)
unfolding connect_port
connect_port-IsChosen local remote w address h =
    IsChosen-if (is_taken w remote address) (local.port == 0) local.port (eq→== local.port 0 h)

-- The port of a block is swapped when it is read.
swapped_zero : (address port : ℕ) → port ≡ 0 → (new_endpoint address port).port ≡ 0
unfolding new_endpoint le_to_be_u16 byte_swap_u16
swapped_zero address port h = rw h refl

connect_endpoint_port :
    (pcb : TcpPcb) (remote : IpEndpoint) (w : World)
    → pcb.local.port ≡ 0
    → Ensures
        (λ local.
          IsChosen (is_taken w remote local.address) tcp_src_port_min tcp_src_port_max local.port)
        (connect_endpoint pcb remote w)
unfolding connect_endpoint
connect_endpoint_port pcb remote w h = Ensures-bind _ (λ address.
    Ensures-check
      (not (connect_port (new_endpoint pcb.local.address pcb.local.port) remote w address == 0))
      (λ e. Ensures-done (
        connect_port-IsChosen (new_endpoint pcb.local.address pcb.local.port) remote w address
          (swapped_zero pcb.local.address pcb.local.port h))))

-- When `connect` on a block without a port finds a local endpoint, the port field of it holds a number
-- from 49152 to 65534: one for which, with the address that it takes and the remote endpoint, no block
-- is selected, unless every such number has one. The field is read in the order of the network: the
-- port that is sent is this number with its two bytes exchanged.
pub connect_endpoint-IsChosen :
    (pcb : TcpPcb) (remote : IpEndpoint) (w : World)
    → pcb.local.port ≡ 0
    → Ensures
        (λ local.
          IsChosen (is_taken w remote local.address) tcp_src_port_min tcp_src_port_max local.port
          × (be_to_le_u16 local.port ≡ local.port % 256 * 256 + local.port / 256))
        (connect_endpoint pcb remote w)
connect_endpoint-IsChosen pcb remote w h =
    Ensures-weaken (connect_endpoint_port pcb remote w h)
      (λ local chosen. (chosen, be_to_le_u16-stored local.port chosen.below))
