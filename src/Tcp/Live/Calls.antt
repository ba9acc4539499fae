-- ===== src/Tcp/Live/Calls.antt =====
-- The user commands, `retransmit` and `close_sockets`: the states that the blocks are in after a
-- call.
use rust_user_net.Base.{
  ℕ, ◌≡◌, List, [], ◌∷◌, Option, none, some, Bool, false, done, All, check, set, leb, ◌/◌, All-set,
  All-get_elem?, Ensures, Ensures-done, Ensures-bind, Ensures-then, Ensures-panic, Ensures-if,
  Option-cases, inl, inr, get_elem?,
}
use native.Mathlib.Nat.{le_refl}
use rust_user_net.Channel.{Channels}
use rust_user_net.Device.Types.{Env}
use rust_user_net.Context.{Host}
use rust_user_net.Ip.Route.{IpEndpoint}
use rust_user_net.Tcp.Types.{TcpPcb, TcpDataQueueEntry, is_socket, tcp_retransmit_timout_sec}
use rust_user_net.Tcp.Pcbs.{select, release, wake, close_sockets}
use rust_user_net.Tcp.World.{World}
use rust_user_net.Tcp.Retransmit.{elapsed, drain, retransmit_pcb, retransmit_from, retransmit}
use rust_user_net.Tcp.Sending.{SendState, send_round}
use rust_user_net.Tcp.Commands.{
  open_socket, bind, listen, rfc793_open_start, rfc793_open_wake, start_connection, connect_start,
  connect_endpoint, connect_wake, accept_start, accept_wake, pop_backlog, receive_take, attach,
  close, Waked, waits, returns,
}
use rust_user_net.Tcp.Live.{
  IsLive, AllLive, found_rule, sent_rule, sum_rule, pcb_by_id_rule, output_rule, world_rule,
  set-AllLive, world-AllLive, free, closed, listen as at_listen, syn_sent, release_at-AllLive,
}
use rust_user_net.Tcp.Live.Segments.{new_entry_rule}

ruleset call_rules = (
  Ensures-if, Ensures-done, Ensures-panic, found_rule, sent_rule, sum_rule, le_refl, world_rule,
  new_entry_rule, Ensures-bind, release_at-AllLive, set-AllLive, world-AllLive, closed, at_listen,
  syn_sent,
)

pub open_socket-AllLive : (w : World) → AllLive w → Ensures (λ r. AllLive r.1) (open_socket w)
unfolding open_socket
open_socket-AllLive w h = search call_rules depth 12

pub bind-AllLive :
    (pcb_id : ℕ) (local : IpEndpoint) (w : World)
    → AllLive w
    → Ensures AllLive (bind pcb_id local w)
unfolding bind
bind-AllLive pcb_id local w h = elim (Option-cases (select w.pcbs local none)) [
  | inl e ↦ rw (e, bind) (search call_rules depth 12)
  | inr (i, e) ↦ rw (e, bind) Ensures-panic
]

pub listen-AllLive : (pcb_id : ℕ) (w : World) → AllLive w → Ensures AllLive (listen pcb_id w)
unfolding listen
listen-AllLive pcb_id w h = search call_rules depth 12

pcb_found :
    (pcb_id : ℕ) (pcbs : List TcpPcb) (pcb : TcpPcb)
    → get_elem? pcbs pcb_id ≡ some pcb
    → All IsLive pcbs
    → IsLive pcb
pcb_found pcb_id pcbs pcb e h = All-get_elem? IsLive pcbs pcb_id pcb h e

module _ (env : Env) where
  start_connection-AllLive :
      (random pcb_id : ℕ) (pcb : TcpPcb) (w : World)
      → AllLive w
      → Ensures AllLive (start_connection env random pcb_id pcb w)
  unfolding start_connection
  start_connection-AllLive random pcb_id pcb w h = search call_rules depth 12

  pub rfc793_open_start-AllLive :
      (random : ℕ) (local : IpEndpoint) (remote : Option IpEndpoint) (active : Bool) (w : World)
      → AllLive w
      → Ensures (λ r. AllLive r.2) (rfc793_open_start env random local remote active w)
  unfolding rfc793_open_start
  rfc793_open_start-AllLive random local remote active w h = new_entry_rule w.pcbs h.each (λ r hr.
      pcb_by_id_rule r.1 r.0 hr (λ taken ht.
        world_rule
          (Ensures-if active
            (start_connection-AllLive random r.0
              (record taken { mode = _; local = _; sender = _; remote = _ }) _
              (set-AllLive r.1 r.0 _ w.host _ hr ht))
            (Ensures-done (
              set-AllLive (set r.1 r.0 _) r.0 _ w.host _ (All-set IsLive r.1 r.0 _ hr ht)
                (at_listen, ht.1))))
          (λ w' h'. Ensures-done h')))

  pub connect_start-AllLive :
      (random pcb_id : ℕ) (remote : IpEndpoint) (w : World)
      → AllLive w
      → Ensures (λ r. AllLive r.1) (connect_start env random pcb_id remote w)
  unfolding connect_start
  connect_start-AllLive random pcb_id remote w h = pcb_by_id_rule w.pcbs pcb_id h.each (λ pcb hp.
      Ensures-bind (check (is_socket pcb.mode)) (λ _.
        Ensures-bind (connect_endpoint pcb remote w) (λ local.
          world_rule
            (start_connection-AllLive random pcb_id (record pcb { local = local; remote = remote })
              _ (world-AllLive w.pcbs w.host _ h.each))
            (λ w' h'.
              pcb_by_id_rule w'.pcbs pcb_id h'.each
                (λ pcb' hp'. Ensures-done (set-AllLive w'.pcbs pcb_id _ _ _ h'.each hp'))))))

  pub send_round-AllLive :
      (pcb_id : ℕ) (payload : List ℕ) (s : SendState) (sent : ℕ) (w : World)
      → AllLive w
      → Ensures (λ r. AllLive r.1) (send_round env pcb_id payload s sent w)
  unfolding send_round
  send_round-AllLive pcb_id payload s sent w h = search call_rules depth 14

  pub close-AllLive : (pcb_id : ℕ) (w : World) → AllLive w → Ensures AllLive (close env pcb_id w)
  unfolding close
  close-AllLive pcb_id w h = elim (Option-cases (get_elem? w.pcbs pcb_id)) [
    | inl e ↦ rw (e, close) (Ensures-done h)
    | inr (pcb, e) ↦
        rw (e, close)
          (output_rule env pcb _ [] w.host (pcb_found pcb_id w.pcbs pcb e h.each) (λ r hr.
            release_at-AllLive pcb_id _ (set-AllLive w.pcbs pcb_id r.1 r.2 w.channels h.each hr)))
  ]

pub rfc793_open_wake-AllLive :
    (pcb_id : ℕ) (proceed : Bool) (w : World)
    → AllLive w
    → Ensures (λ r. AllLive r.1) (rfc793_open_wake pcb_id proceed w)
unfolding rfc793_open_wake
rfc793_open_wake-AllLive pcb_id proceed w h = search call_rules depth 12

pub connect_wake-AllLive :
    (pcb_id : ℕ) (wakeup : Bool) (w : World)
    → AllLive w
    → Ensures (λ r. AllLive r.1) (connect_wake pcb_id wakeup w)
unfolding connect_wake
connect_wake-AllLive pcb_id wakeup w h = search call_rules depth 12

pop_backlog-IsLive : (pcb : TcpPcb) (ids : List ℕ) → IsLive pcb → IsLive (pop_backlog pcb ids).1
unfolding pop_backlog
pop_backlog-IsLive pcb [] h = h
pop_backlog-IsLive pcb (i ∷ ids) h = h

-- What the loop of `accept` does with the connection that it takes next.
taken-AllLive :
    (in_hand next : Option ℕ) {w : World}
    → AllLive w
    → Ensures {A = Waked (Option ℕ) × Option ℕ × World}
        (λ r. AllLive r.2)
        (elim next [
          | none ↦ done (returns in_hand, none, w)
          | some next_id ↦ done (waits, some next_id, w)
        ])
taken-AllLive in_hand none h = Ensures-done h
taken-AllLive in_hand (some next_id) h = Ensures-done h

pub accept_start-AllLive :
    (pcb_id : ℕ) (w : World) → AllLive w → Ensures (λ r. AllLive r.2) (accept_start pcb_id w)
unfolding accept_start
accept_start-AllLive pcb_id w h = search (call_rules, pop_backlog-IsLive) depth 14

pub accept_wake-AllLive :
    (pcb_id : ℕ) (in_hand : Option ℕ) (message : Bool) (w : World)
    → AllLive w
    → Ensures (λ r. AllLive r.2) (accept_wake pcb_id in_hand message w)
unfolding accept_wake
accept_wake-AllLive pcb_id in_hand message w h = Ensures-if _ (Ensures-done h) (
    pcb_by_id_rule w.pcbs pcb_id h.each (λ pcb hp. Ensures-if _ (Ensures-done h) (
      taken-AllLive in_hand (pop_backlog pcb pcb.backlog).0 (
        set-AllLive w.pcbs pcb_id _ w.host w.channels h.each
          (pop_backlog-IsLive pcb pcb.backlog hp)))))

pub attach-AllLive :
    (pcb_id : ℕ) (w : World) → AllLive w → Ensures (λ r. AllLive r.1) (attach pcb_id w)
unfolding attach
attach-AllLive pcb_id w h = search call_rules depth 12

pub receive_take-AllLive :
    (pcb_id size : ℕ) (remain : Option ℕ) (w : World)
    → AllLive w
    → Ensures (λ r. AllLive r.1) (receive_take pcb_id size remain w)
unfolding receive_take
receive_take-AllLive pcb_id size remain w h = search call_rules depth 12

-- A block that `drain` leaves is as it was, with no entries, or released.
drain-IsLive :
    (env : Env) (pcb : TcpPcb) (queue : List TcpDataQueueEntry) (host : Host) (channels : Channels)
    → IsLive pcb
    → Ensures (λ r. IsLive r.0) (drain env pcb queue host channels)
unfolding drain release
drain-IsLive env pcb [] host channels h = Ensures-done h
drain-IsLive env pcb (entry ∷ queue) host channels h =
    Ensures-bind (elapsed env.now entry.first_sent_at) (λ age.
      Ensures-if (leb tcp_retransmit_timout_sec (age / 1000000)) (Ensures-done (free, h.1)) (
        Ensures-if _ (Ensures-bind _ (λ (r : ℕ × Host). drain-IsLive env pcb queue r.1 channels h))
          (drain-IsLive env pcb queue host channels h)))

retransmit_pcb-IsLive :
    (env : Env) (pcb : TcpPcb) (host : Host) (channels : Channels)
    → IsLive pcb
    → Ensures (λ r. IsLive r.0) (retransmit_pcb env pcb host channels)
unfolding retransmit_pcb release
retransmit_pcb-IsLive env pcb host channels (hs, le) =
    search (Ensures-if, Ensures-done, Ensures-bind, drain-IsLive, free) depth 12

retransmit_from-All :
    (env : Env) (pcbs : List TcpPcb) (host : Host) (channels : Channels)
    → All IsLive pcbs
    → Ensures (λ r. All IsLive r.0) (retransmit_from env pcbs host channels)
unfolding retransmit_from
retransmit_from-All env [] host channels h = Ensures-done h
retransmit_from-All env (pcb ∷ pcbs) host channels h =
    Ensures-then _ (retransmit_pcb-IsLive env pcb host channels h.0) (λ r hr.
      Ensures-then _ (retransmit_from-All env pcbs r.1 r.2 h.1) (λ s hs. Ensures-done (hr, hs)))

pub retransmit-AllLive : (env : Env) (w : World) → AllLive w → Ensures AllLive (retransmit env w)
unfolding retransmit
retransmit-AllLive env w h =
    Ensures-then _ (retransmit_from-All env w.pcbs w.host w.channels h.each)
      (λ r hr. Ensures-done (record { each = hr }))

pub close_sockets-All :
    (pcbs : List TcpPcb) (channels : Channels)
    → All IsLive pcbs
    → All IsLive (close_sockets pcbs channels).0
unfolding close_sockets release
close_sockets-All [] channels h = tt
close_sockets-All (pcb ∷ pcbs) channels h =
    ((free, h.0.1), close_sockets-All pcbs (wake pcb.sender false channels) h.1)
