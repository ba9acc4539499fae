-- ===== src/Tcp/System.antt =====
-- The blocks of src/protocols/ip/tcp.rs over time: what a thread does between taking their lock and
-- giving it back is a step, in any order of the threads.
use rust_user_net.Base.{
  ℕ, ◌≡◌, List, Option, Bool, done, Res, All-replicate, Ensures-returned, arith,
}
use rust_user_net.Channel.{Channels}
use rust_user_net.Device.Types.{Env}
use rust_user_net.Context.{Host}
use rust_user_net.Ip.Route.{IpEndpoint, IpInterface}
use rust_user_net.Tcp.Types.{tcp_pcb_count, new_pcb}
use rust_user_net.Tcp.Pcbs.{new_pcbs, close_sockets}
use rust_user_net.Tcp.World.{World}
use rust_user_net.Tcp.Arrives.{input}
use rust_user_net.Tcp.Retransmit.{retransmit}
use rust_user_net.Tcp.Sending.{SendState, SendRound, send_round}
use rust_user_net.Tcp.Commands.{
  open_socket, bind, listen, rfc793_open_start, rfc793_open_wake, connect_start, connect_wake,
  accept_start, accept_wake, receive_take, attach, close, Waked,
}
use rust_user_net.Tcp.Live.{AllLive, IsLive, world-AllLive, free}
use rust_user_net.Tcp.Live.Segments.{input-AllLive}
use rust_user_net.Tcp.Live.Calls.{
  open_socket-AllLive, bind-AllLive, listen-AllLive, rfc793_open_start-AllLive,
  rfc793_open_wake-AllLive, connect_start-AllLive, connect_wake-AllLive, accept_start-AllLive,
  accept_wake-AllLive, receive_take-AllLive, attach-AllLive, close-AllLive, retransmit-AllLive,
  send_round-AllLive, close_sockets-All,
}

-- A call that does not return makes no step: its thread panics.
pub data Step : World → World → Type 0 where
  arrives :
      (env : Env) (bytes : List ℕ) (len src dst : ℕ) (iface : IpInterface) (random : ℕ)
      (res : Res (Unit {0})) {w w' : World}
      → input env bytes len src dst iface random w ≡ done (res, w')
      → Step w w'
  opens : (pcb_id : ℕ) {w w' : World} → open_socket w ≡ done (pcb_id, w') → Step w w'
  binds :
      (pcb_id : ℕ) (local : IpEndpoint) {w w' : World} → bind pcb_id local w ≡ done w' → Step w w'
  listens : (pcb_id : ℕ) {w w' : World} → listen pcb_id w ≡ done w' → Step w w'
  opens_rfc793 :
      (env : Env) (random : ℕ) (local : IpEndpoint) (remote : Option IpEndpoint) (active : Bool)
      (pcb_id receiver : ℕ) {w w' : World}
      → rfc793_open_start env random local remote active w ≡ done (pcb_id, receiver, w')
      → Step w w'
  open_wakes :
      (pcb_id : ℕ) (proceed : Bool) (res : Waked (Option ℕ)) {w w' : World}
      → rfc793_open_wake pcb_id proceed w ≡ done (res, w')
      → Step w w'
  connects :
      (env : Env) (random pcb_id : ℕ) (remote : IpEndpoint) (receiver : ℕ) {w w' : World}
      → connect_start env random pcb_id remote w ≡ done (receiver, w')
      → Step w w'
  connect_wakes :
      (pcb_id : ℕ) (wakeup : Bool) (res : Waked (Option ℕ)) {w w' : World}
      → connect_wake pcb_id wakeup w ≡ done (res, w')
      → Step w w'
  accepts :
      (pcb_id receiver : ℕ) (next : Option ℕ) {w w' : World}
      → accept_start pcb_id w ≡ done (receiver, next, w')
      → Step w w'
  accept_wakes :
      (pcb_id : ℕ) (in_hand : Option ℕ) (message : Bool) (res : Waked (Option ℕ)) (next : Option ℕ)
      {w w' : World}
      → accept_wake pcb_id in_hand message w ≡ done (res, next, w')
      → Step w w'
  attaches :
      (pcb_id receiver : ℕ) {w w' : World} → attach pcb_id w ≡ done (receiver, w') → Step w w'
  sends :
      (env : Env) (pcb_id : ℕ) (payload : List ℕ) (s : SendState) (sent : ℕ) (round : SendRound)
      {w w' : World}
      → send_round env pcb_id payload s sent w ≡ done (round, w')
      → Step w w'
  receives :
      (pcb_id size : ℕ) (remain : Option ℕ) (data_ : List ℕ) {w w' : World}
      → receive_take pcb_id size remain w ≡ done (data_, w')
      → Step w w'
  closes : (env : Env) (pcb_id : ℕ) {w w' : World} → close env pcb_id w ≡ done w' → Step w w'
  retransmits : (env : Env) {w w' : World} → retransmit env w ≡ done w' → Step w w'
  ends :
      (w : World)
      → Step w (record w {
        pcbs = (close_sockets w.pcbs w.channels).0;
        channels = (close_sockets w.pcbs w.channels).1;
      })
  -- The other protocols and the waiting threads change the rest.
  elsewhere :
      (host : Host) (channels : Channels) (w : World)
      → Step w (record w { host = host; channels = channels })

-- What is reached from the blocks that `TcpPcbs::new` makes.
pub data Reach : World → Type 0 where
  starts :
      (host : Host) (channels : Channels)
      → Reach (record { host = host; pcbs = new_pcbs; channels = channels })
  steps : {w w' : World} → Reach w → Step w w' → Reach w'

Step-AllLive : {w w' : World} → Step w w' → AllLive w → AllLive w'
Step-AllLive {w} (arrives env bytes len src dst iface random res e) h =
    Ensures-returned _ (input-AllLive env bytes len src dst iface random w h) e
Step-AllLive {w} (opens pcb_id e) h = Ensures-returned _ (open_socket-AllLive w h) e
Step-AllLive {w} (binds pcb_id local e) h = Ensures-returned _ (bind-AllLive pcb_id local w h) e
Step-AllLive {w} (listens pcb_id e) h = Ensures-returned _ (listen-AllLive pcb_id w h) e
Step-AllLive {w} (opens_rfc793 env random local remote active pcb_id receiver e) h =
    Ensures-returned _ (rfc793_open_start-AllLive env random local remote active w h) e
Step-AllLive {w} (open_wakes pcb_id proceed res e) h =
    Ensures-returned _ (rfc793_open_wake-AllLive pcb_id proceed w h) e
Step-AllLive {w} (connects env random pcb_id remote receiver e) h =
    Ensures-returned _ (connect_start-AllLive env random pcb_id remote w h) e
Step-AllLive {w} (connect_wakes pcb_id wakeup res e) h =
    Ensures-returned _ (connect_wake-AllLive pcb_id wakeup w h) e
Step-AllLive {w} (accepts pcb_id receiver next e) h =
    Ensures-returned _ (accept_start-AllLive pcb_id w h) e
Step-AllLive {w} (accept_wakes pcb_id in_hand message res next e) h =
    Ensures-returned _ (accept_wake-AllLive pcb_id in_hand message w h) e
Step-AllLive {w} (attaches pcb_id receiver e) h = Ensures-returned _ (attach-AllLive pcb_id w h) e
Step-AllLive {w} (sends env pcb_id payload s sent round e) h =
    Ensures-returned _ (send_round-AllLive env pcb_id payload s sent w h) e
Step-AllLive {w} (receives pcb_id size remain data_ e) h =
    Ensures-returned _ (receive_take-AllLive pcb_id size remain w h) e
Step-AllLive {w} (closes env pcb_id e) h = Ensures-returned _ (close-AllLive env pcb_id w h) e
Step-AllLive {w} (retransmits env e) h = Ensures-returned _ (retransmit-AllLive env w h) e
Step-AllLive (ends w) h = record { each = close_sockets-All w.pcbs w.channels h.each }
Step-AllLive (elsewhere host channels w) h = world-AllLive w.pcbs host channels h.each

-- In whatever order segments arrive, users call, threads wake up and segments are sent again, every
-- block of a world that is reached is FREE, CLOSED, LISTEN, SYN-SENT, SYN-RECEIVED, ESTABLISHED or
-- CLOSE-WAIT, and no more of it is acknowledged than was sent: its `send.una` is not above its
-- `send.next`.
pub Reach-AllLive : {w : World} → Reach w → AllLive w
Reach-AllLive (starts host channels) =
    world-AllLive new_pcbs host channels
      (All-replicate IsLive tcp_pcb_count new_pcb (free, omega arith))
Reach-AllLive (steps r s) = Step-AllLive s (Reach-AllLive r)
