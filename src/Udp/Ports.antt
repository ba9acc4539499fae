-- ===== src/Udp/Ports.antt =====
-- The source ports of src/protocols/ip/udp.rs: what `send_to` takes for a block that is not bound.
use rust_user_net.Base.{
  ℕ, zero, suc, ◌+◌, ◌*◌, ◌/◌, ◌%◌, ◌-◌, Bool, ◌≡◌, ◌≢◌, refl, not, true, ◌==◌, arith, Ensures,
  Ensures-done, Ensures-bind, Ensures-check, Ensures-test, Ensures-weaken, eq→==, sym, ◌∙◌,
}
use mathlib.Core.Bool.{true≢false}
use rust_user_net.Utils.Byte.{be_to_le_u16}
use rust_user_net.Ip.Route.{IpEndpoint}
use rust_user_net.Ip.Ports.{IsFree, round-IsFree, be_to_le_u16-stored}
use rust_user_net.Context.{Host}
use rust_user_net.Udp.Pcbs.{UdpPcb, UdpPcbs, is_endpoint_used}
use rust_user_net.Udp.Socket.{free_port, source_endpoint, udp_src_port_min, udp_src_port_max}

free_port-IsFree :
    (used : ℕ → Bool) (left p : ℕ)
    → free_port used left p ≢ 0
    → IsFree used p (p + left) (free_port used left p)
unfolding free_port
free_port-IsFree used zero p h = absurd (h refl)
free_port-IsFree used (suc left) p h =
    round-IsFree used left p _ (used p) refl (free_port-IsFree used left (p + 1)) h

not_zero : (n : ℕ) → not (n == 0) ≡ true → n ≢ 0
not_zero n h = ground arith

found :
    (used : ℕ → Bool)
    → not (free_port used (udp_src_port_max - udp_src_port_min) udp_src_port_min == 0) ≡ true
    → IsFree used udp_src_port_min udp_src_port_max
        (free_port used (udp_src_port_max - udp_src_port_min) udp_src_port_min)
found used e =
    free_port-IsFree used (udp_src_port_max - udp_src_port_min) udp_src_port_min (not_zero _ e)

source_endpoint_port :
    (pcbs : UdpPcbs) (pcb : UdpPcb) (remote : IpEndpoint) (host : Host)
    → pcb.local_endpoint.port ≡ 0
    → Ensures
        (λ local.
          IsFree (is_endpoint_used pcbs local.address) udp_src_port_min udp_src_port_max local.port)
        (source_endpoint pcbs pcb remote host)
unfolding source_endpoint
source_endpoint_port pcbs pcb remote host h = Ensures-bind _ (λ address.
    Ensures-test (pcb.local_endpoint.port == 0)
      (λ _.
        Ensures-check
          (not (
            free_port (is_endpoint_used pcbs address) (udp_src_port_max - udp_src_port_min)
              udp_src_port_min
            == 0))
          (λ e. Ensures-done (found (is_endpoint_used pcbs address) e)))
      (λ e. absurd (true≢false (sym (eq→== pcb.local_endpoint.port 0 h) ∙ e))))

-- When `send_to` on a block of UDP without a port finds a source, the port field of it holds a number
-- from 49152 to 65534, and no open block serves the address with this field. The field is read in the
-- order of the network: the port that is sent is this number with its two bytes exchanged.
pub source_endpoint-IsFree :
    (pcbs : UdpPcbs) (pcb : UdpPcb) (remote : IpEndpoint) (host : Host)
    → pcb.local_endpoint.port ≡ 0
    → Ensures
        (λ local.
          IsFree (is_endpoint_used pcbs local.address) udp_src_port_min udp_src_port_max local.port
          × (be_to_le_u16 local.port ≡ local.port % 256 * 256 + local.port / 256))
        (source_endpoint pcbs pcb remote host)
source_endpoint-IsFree pcbs pcb remote host h =
    Ensures-weaken (source_endpoint_port pcbs pcb remote host h)
      (λ local free. (free, be_to_le_u16-stored local.port free.below))
