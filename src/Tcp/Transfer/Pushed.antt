-- ===== src/Tcp/Transfer/Pushed.antt =====
-- A round of `send` of src/protocols/ip/tcp.rs at a block that has nothing on its way.
use rust_user_net.Base.{
  zero, suc, le→leb, gt→leb, lt→ltb, ge→ltb, ℕ, ◌+◌, ◌-◌, ◌^◌, ◌<◌, ◌≤◌, ◌≡◌, refl, ap, List, [],
  ◌∷◌, Option, none, some, done, if◌then◌else◌, ◌&&◌, get_elem?, set, arith, length,
}
use mathlib.Core.Option.{some-injective}
use rust_user_net.Device.Types.{Env}
use rust_user_net.Ip.Route.{IpEndpoint}
use rust_user_net.Context.{Host}
use rust_user_net.Tcp.Types.{TcpPcb, TcpPcbState, tcp_flag_exists}
use rust_user_net.Tcp.Pcbs.{select, select_from, local_fits, remote_fits, listens, add_data_queue}
use rust_user_net.Tcp.Segment.{output, output_segment, queued}
use rust_user_net.Tcp.World.{World, put_pcb}
use rust_user_net.Tcp.Sending.{send_test, SendRound, send_round, send_capacity, send_len}
use rust_user_net.Tcp.Advance.{IsIdle}
use rust_user_net.Tcp.Transfer.{pushed, read_of}

queued_text :
    (env : Env) (pcb : TcpPcb) (text : List ℕ)
    → 0 < length text
    → queued env pcb 0x18 text ≡ add_data_queue env.now pcb pcb.send_context.next 0x18 text
unfolding queued tcp_flag_exists
queued_text env pcb text some_text = rw (lt→ltb 0 (length text) some_text) refl

output_text :
    (env : Env) (pcb : TcpPcb) (text : List ℕ) (host host' : Host) (sent : ℕ)
    → 0 < length text
    → output_segment env pcb.send_context.next pcb.recv_context.next 0x18 pcb.recv_context.window
        text pcb.local pcb.remote host
      ≡ done (sent, host')
    → output env pcb 0x18 text host
      ≡ done (sent, add_data_queue env.now pcb pcb.send_context.next 0x18 text, host')
unfolding output tcp_flag_exists
output_text env pcb text host host' sent some_text o =
    rw (queued_text env pcb text some_text, o) refl

-- A round of `send` at an idle block, for data that fits the segment and the window.
pub send_round-IsIdle :
    (env : Env) (pcb_id mss : ℕ) (pcb : TcpPcb) (text : List ℕ) (w : World) (host : Host) (sent : ℕ)
    → get_elem? w.pcbs pcb_id ≡ some pcb
    → IsIdle pcb
    → 0 < length text
    → length text ≤ mss
    → length text ≤ pcb.send_context.window
    → pcb.send_context.next + length text < 2 ^ 32
    → output_segment env pcb.send_context.next pcb.recv_context.next 0x18 pcb.recv_context.window
        text pcb.local pcb.remote w.host
      ≡ done (sent, host)
    → send_round env pcb_id text (read_of pcb mss) 0 w
      ≡ done (
        SendRound.continues (length text),
        put_pcb (record w { host = host }) pcb_id (pushed env pcb text),
      )
unfolding send_round send_capacity add_data_queue
send_round-IsIdle env pcb_id mss pcb text w host sent there idle some_text fits allowed below o =
    let una = pcb.send_context.una in
    let next = pcb.send_context.next in
    let first : 0 + length text ≡ length text = omega arith in
    let none_out : next - una ≡ 0 = omega (arith, idle.all_acked) in
    let whole : send_len (read_of pcb mss) text 0 (pcb.send_context.window - 0) ≡ length text =
      omega arith in
    rw
      (
        gt→leb (length text) 0 some_text,
        le→leb una next (omega (arith, idle.all_acked)),
        none_out,
        le→leb 0 pcb.send_context.window (omega arith),
        ge→ltb (pcb.send_context.window - 0) 1 (omega arith),
        there,
        output_text env pcb text w.host host sent some_text o,
        whole,
        lt→ltb (next + length text) (2 ^ 32) below,
        first,
      )
      refl

-- A block that sends data is selected as before.
select_from-pushed :
    (env : Env) (text : List ℕ) (i k : ℕ) (listening : Option ℕ) (pcbs : List TcpPcb) (pcb : TcpPcb)
    (local : IpEndpoint) (remote : Option IpEndpoint)
    → get_elem? pcbs k ≡ some pcb
    → select_from i listening (set pcbs k (pushed env pcb text)) local remote
      ≡ select_from i listening pcbs local remote
unfolding select_from
select_from-pushed env text i k listening [] pcb local remote h = refl
select_from-pushed env text i zero listening (p ∷ pcbs) pcb local remote h =
    rw (← some-injective p pcb h) refl
select_from-pushed env text i (suc k) listening (p ∷ pcbs) pcb local remote h =
    ap (λ o. if local_fits p local && remote_fits p remote then some i else o)
      (select_from-pushed env text (i + 1) k
        (if local_fits p local && listens p then some i else listening) pcbs pcb local remote h)

pub send_test-established :
    (cid : ℕ) (client : TcpPcb) (w : World)
    → get_elem? w.pcbs cid ≡ some client
    → client.state ≡ TcpPcbState.established
    → 40 ≤ w.host.device.mtu
    → send_test cid w ≡ done (some (read_of client (w.host.device.mtu - 40)))
unfolding send_test
send_test-established cid client w there s big = rw (there, s, le→leb 40 w.host.device.mtu big) refl

pub select-pushed :
    (env : Env) (text : List ℕ) (pcbs : List TcpPcb) (k : ℕ) (pcb : TcpPcb) (local : IpEndpoint)
    (remote : Option IpEndpoint)
    → get_elem? pcbs k ≡ some pcb
    → select (set pcbs k (pushed env pcb text)) local remote ≡ select pcbs local remote
unfolding select
select-pushed env text pcbs k pcb local remote h =
    select_from-pushed env text 0 k none pcbs pcb local remote h
