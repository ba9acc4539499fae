-- ===== src/Tcp/Advance.antt =====
-- What an acknowledgement of everything that was sent changes of an established block of
-- src/protocols/ip/tcp.rs.
use rust_user_net.Base.{
  le→leb, ge→ltb, ℕ, ◌≤◌, ◌≡◌, refl, sym, ◌∙◌, [], false, Bool-cases, inl, inr, done, leb, ltb,
  ◌==◌, ◌&&◌, ◌||◌, get_elem?, some, arith,
}
use rust_user_net.Device.Types.{Env}
use rust_user_net.Tcp.Types.{TcpPcb, TcpPcbState}
use rust_user_net.Tcp.Pcbs.{clean_data_queue, clean_queue}
use rust_user_net.Tcp.World.{World, Arrival, go, put_pcb}
use rust_user_net.Tcp.Phases.{ack_connection, advance, finish_closing}

-- Nothing that the block sent is without an acknowledgement.
pub record IsIdle (pcb : TcpPcb) : Type 0 where
  pub all_acked : pcb.send_context.una ≡ pcb.send_context.next
  pub unqueued : pcb.data_queue ≡ []

-- All but the queue and what concerns acknowledgements is kept.
pub record Keeps (pcb pcb' : TcpPcb) : Type 0 where
  pub state : pcb'.state ≡ pcb.state
  pub send_next : pcb'.send_context.next ≡ pcb.send_context.next
  pub received : pcb'.recv_context ≡ pcb.recv_context
  pub buffer : pcb'.buf ≡ pcb.buf
  pub local_end : pcb'.local ≡ pcb.local
  pub remote_end : pcb'.remote ≡ pcb.remote
  pub waiter : pcb'.sender ≡ pcb.sender

Keeps-self : (pcb : TcpPcb) → Keeps pcb pcb
Keeps-self pcb = record {
  state = refl;
  send_next = refl;
  received = refl;
  buffer = refl;
  local_end = refl;
  remote_end = refl;
  waiter = refl;
}

-- Whether the window of the segment is taken over or not.
pub advance-Keeps :
    (a : Arrival) (pcb : TcpPcb)
    → (Keeps pcb (advance a pcb))
      × ((advance a pcb).send_context.una ≡ a.seg.ack_num)
      × ((advance a pcb).data_queue ≡ clean_queue a.seg.ack_num pcb.data_queue)
unfolding advance clean_data_queue
advance-Keeps a pcb =
    elim (Bool-cases (
      ltb pcb.send_context.wl1 a.seg.seq_num
      || (pcb.send_context.wl1 == a.seg.seq_num && leb pcb.send_context.wl2 a.seg.ack_num))) [
        | inl e ↦ rw e (
          record {
            state = refl;
            send_next = refl;
            received = refl;
            buffer = refl;
            local_end = refl;
            remote_end = refl;
            waiter = refl;
          },
          refl,
          refl,
        )
        | inr e ↦ rw e (
          record {
            state = refl;
            send_next = refl;
            received = refl;
            buffer = refl;
            local_end = refl;
            remote_end = refl;
            waiter = refl;
          },
          refl,
          refl,
        )
      ]

at_next : (una next : ℕ) → ltb una next ≡ false → una ≤ next → una ≡ next
at_next una next e live = ground arith

-- An acknowledgement of everything, of which some or nothing is new.
pub ack_connection-Keeps :
    (env : Env) (a : Arrival) (pcb_id : ℕ) (pcb : TcpPcb) (w : World)
    → get_elem? w.pcbs pcb_id ≡ some pcb
    → a.seg.ack_num ≡ pcb.send_context.next
    → pcb.send_context.una ≤ pcb.send_context.next
    → (pcb' : TcpPcb) × (ack_connection env a pcb_id TcpPcbState.established w
        ≡ done (go (put_pcb w pcb_id pcb')))
      × (pcb'.send_context.una ≡ pcb'.send_context.next)
      × Keeps pcb pcb'
unfolding ack_connection finish_closing
ack_connection-Keeps env a pcb_id pcb w there all live =
    let una = pcb.send_context.una in
    let next = pcb.send_context.next in
    elim (Bool-cases (ltb una next)) [
      | inl e ↦
          let (kept, acked, _) = advance-Keeps a pcb in
          (
            advance a pcb,
            rw (there, all, e, le→leb next next (omega arith)) refl,
            acked ∙ all ∙ sym kept.send_next,
            kept,
          )
      | inr e ↦ (
        pcb,
        rw (there, all, e, ge→ltb next una live, ge→ltb next next (omega arith)) refl,
        at_next una next e live,
        Keeps-self pcb,
      )
    ]
