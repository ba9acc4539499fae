-- ===== src/Tcp/Capacity.antt =====
-- A window of src/protocols/ip/tcp.rs that the other end closes below what is on its way.
use rust_user_net.Base.{
  le→leb, gt→leb, lt→ltb, eq→==, ℕ, ◌+◌, ◌-◌, ◌^◌, ◌<◌, ◌≤◌, ◌≡◌, ◌∙◌, refl, ap, List, some, panic,
  true, false, Bool-cases, inl, inr, done, leb, ltb, ◌==◌, ◌&&◌, ◌||◌, get_elem?,
  get_elem?-set_self, arith, length,
}
use rust_user_net.Device.Types.{Env}
use rust_user_net.Ip.Route.{IpEndpoint}
use rust_user_net.Tcp.Types.{TcpPcb, TcpPcbState, tcp_flag_exists}
use rust_user_net.Tcp.Pcbs.{select, clean_data_queue}
use rust_user_net.Tcp.World.{World, Arrival, go, put_pcb}
use rust_user_net.Tcp.Phases.{
  check_sequence, acceptable, check_rst, check_syn, ack_by_state, ack_connection, advance,
  finish_closing, check_ack, process_text, check_fin,
}
use rust_user_net.Tcp.Arrives.{arrives_at, arrives_connection, segment_arrives}
use rust_user_net.Tcp.Sending.{SendState, send_test, send_round, send_capacity}
use rust_user_net.Tcp.Handshake.{segment_with}
use rust_user_net.Tcp.Handshake.Established.{segment_arrives-at}

-- An acknowledgement of some of what is on its way, which leaves the block a window below the rest.
pub record IsClosing (pcb : TcpPcb) (ack window : ℕ) : Type 0 where
  pub established : pcb.state ≡ TcpPcbState.established
  pub some_acked : pcb.send_context.una < ack
  pub sent : ack ≤ pcb.send_context.next
  pub later : pcb.send_context.wl1 ≤ pcb.recv_context.next
  pub later_ack : pcb.send_context.wl2 ≤ ack
  pub closes : window < pcb.send_context.next - ack
  pub below : pcb.recv_context.next + pcb.recv_context.window < 2 ^ 32

opened_room : (next win : ℕ) → ltb win 1 ≡ false → next < next + win
opened_room next win opened = ground arith

newer : (a b c d : ℕ) → a ≤ b → c ≤ d → (ltb a b || (a == b && leb c d)) ≡ true
newer a b c d h₁ h₂ = ground arith

module _ (env : Env) (window random ack pcb_id : ℕ) (local remote : IpEndpoint) (pcb : TcpPcb)
    (c : IsClosing pcb ack window) where
  abbrev closing : Arrival
  closing = segment_with pcb.recv_context.next ack 0 0x10 window local remote random

  acceptable-closing : acceptable closing pcb ≡ done true
  unfolding acceptable
  acceptable-closing =
      let next = pcb.recv_context.next in
      let win = pcb.recv_context.window in
      elim (Bool-cases (ltb win 1)) [
        | inl closed ↦ rw (closed, eq→== next next refl) refl
        | inr opened ↦
            rw (opened, le→leb next next (omega arith), lt→ltb (next + win) (2 ^ 32) c.below)
              (ap done (lt→ltb next (next + win) (opened_room next win opened)))
      ]

  check_sequence-closing :
      (w : World)
      → get_elem? w.pcbs pcb_id ≡ some pcb
      → check_sequence env closing pcb_id TcpPcbState.established w ≡ done (go w)
  unfolding check_sequence
  check_sequence-closing w there = rw (there, acceptable-closing) refl

  ack_connection-closing :
      (w : World)
      → get_elem? w.pcbs pcb_id ≡ some pcb
      → ack_connection env closing pcb_id TcpPcbState.established w
        ≡ done (go (put_pcb w pcb_id (advance closing pcb)))
  unfolding ack_connection finish_closing
  ack_connection-closing w there =
      rw
        (
          there,
          lt→ltb pcb.send_context.una ack c.some_acked,
          le→leb ack pcb.send_context.next c.sent,
        )
        refl

  arrives_connection-closing :
      (w : World)
      → get_elem? w.pcbs pcb_id ≡ some pcb
      → arrives_connection env closing pcb_id TcpPcbState.established w
        ≡ done (put_pcb w pcb_id (advance closing pcb))
  unfolding arrives_connection check_rst check_syn check_ack ack_by_state process_text check_fin
      tcp_flag_exists
  arrives_connection-closing w there =
      rw (check_sequence-closing w there, ack_connection-closing w there) refl

  -- What `send` then reads of the block.
  send_test-closing :
      (w : World)
      → get_elem? w.pcbs pcb_id ≡ some pcb
      → 40 ≤ w.host.device.mtu
      → send_test pcb_id (put_pcb w pcb_id (advance closing pcb))
        ≡ done (
            some (record {
              window = window;
              next = pcb.send_context.next;
              una = ack;
              mss = w.host.device.mtu - 40;
            }))
  unfolding send_test advance clean_data_queue
  send_test-closing w there big =
      rw
        (
          get_elem?-set_self w.pcbs pcb_id (advance closing pcb) pcb there,
          newer pcb.send_context.wl1 pcb.recv_context.next pcb.send_context.wl2 ack c.later
              c.later_ack,
          c.established,
          le→leb 40 w.host.device.mtu big,
        )
        refl

-- What a round of `send` does with it.
send_round-closed :
    (env : Env) (pcb_id : ℕ) (payload : List ℕ) (s : SendState) (w : World)
    → 0 < length payload
    → s.una ≤ s.next
    → s.window < s.next - s.una
    → send_round env pcb_id payload s 0 w ≡ panic
unfolding send_round send_capacity
send_round-closed env pcb_id payload s w some_bytes le closed =
    rw
      (
        gt→leb (length payload) 0 some_bytes,
        le→leb s.una s.next le,
        gt→leb (s.next - s.una) s.window closed,
      )
      refl

-- An acknowledgement of some of what an established block has on its way, with a window that is
-- smaller than the rest, of a segment that the block expects and that is no older than the one its
-- window is from, where it finds the block, the numbers do not overflow and the device takes packets
-- of 40 bytes: it is taken, and the next round of `send` there for any data panics.
pub segment_arrives-IsClosing :
    (env env' : Env) (window random ack pcb_id : ℕ) (local remote : IpEndpoint) (pcb : TcpPcb)
    (payload : List ℕ) (w : World)
    → get_elem? w.pcbs pcb_id ≡ some pcb
    → select w.pcbs local (some remote) ≡ some pcb_id
    → IsClosing pcb ack window
    → 40 ≤ w.host.device.mtu
    → 0 < length payload
    → (w' : World) × (s : SendState) × (segment_arrives env
          (segment_with pcb.recv_context.next ack 0 0x10 window local remote random)
          w
        ≡ done w')
      × (send_test pcb_id w' ≡ done (some s))
      × (send_round env' pcb_id payload s 0 w' ≡ panic)
unfolding arrives_at
segment_arrives-IsClosing env env' window random ack pcb_id local remote pcb payload w there found c
      big some_bytes =
    (
      put_pcb w pcb_id
          (advance (segment_with pcb.recv_context.next ack 0 0x10 window local remote random) pcb),
      _,
      segment_arrives-at env _ w pcb_id pcb TcpPcbState.established found there c.established
          ∙ arrives_connection-closing env window random ack pcb_id local remote pcb c w there,
      send_test-closing env window random ack pcb_id local remote pcb c w there big,
      send_round-closed env' pcb_id payload _ _ some_bytes c.sent c.closes,
    )
