-- ===== src/Tcp/Transfer/Acked.antt =====
-- The acknowledgement of everything that a block of src/protocols/ip/tcp.rs has sent.
use rust_user_net.Base.{
  le→leb, lt→ltb, eq→==, ℕ, ◌+◌, ◌^◌, ◌<◌, ◌≡◌, refl, sym, ap, ◌∙◌, List, [], true, false,
  Bool-cases, inl, inr, done, ltb, get_elem?, some, arith, length,
}
use rust_user_net.Device.Types.{Env}
use rust_user_net.Ip.Route.{IpEndpoint}
use rust_user_net.Tcp.Types.{TcpPcb, TcpPcbState, tcp_flag_exists}
use rust_user_net.Tcp.Pcbs.{clean_queue}
use rust_user_net.Tcp.Queue.{clean_queue_lem}
use rust_user_net.Tcp.World.{World, Arrival, go, put_pcb}
use rust_user_net.Tcp.Phases.{
  check_sequence, acceptable, check_rst, check_syn, ack_by_state, ack_connection, advance,
  finish_closing, check_ack, process_text, check_fin,
}
use rust_user_net.Tcp.Arrives.{arrives_connection}
use rust_user_net.Tcp.Handshake.{segment_with}
use rust_user_net.Tcp.Advance.{IsIdle, Keeps, advance-Keeps}
use rust_user_net.Tcp.Transfer.{pushed}

opened_room : (next win : ℕ) → ltb win 1 ≡ false → next < next + win
opened_room next win opened = ground arith

module _ (env : Env) (pcb : TcpPcb) (text : List ℕ) (window random pcb_id : ℕ)
    (local remote : IpEndpoint) where
  abbrev pub last_ack : Arrival
  last_ack =
      segment_with pcb.recv_context.next (pcb.send_context.next + length text) 0 0x10 window local
        remote random

  -- The segment is one that the block accepts, with whatever window it has.
  acceptable-last_ack :
      pcb.recv_context.next + pcb.recv_context.window < 2 ^ 32
      → acceptable last_ack (pushed env pcb text) ≡ done true
  unfolding acceptable
  acceptable-last_ack below =
      let next = pcb.recv_context.next in
      let win = pcb.recv_context.window in
      elim (Bool-cases (ltb win 1)) [
        | inl closed ↦ rw (closed, eq→== next next refl) refl
        | inr opened ↦
            rw (opened, le→leb next next (omega arith), lt→ltb (next + win) (2 ^ 32) below)
              (ap done (lt→ltb next (next + win) (opened_room next win opened)))
      ]

  -- The one entry of the queue is taken out.
  clean_queue-pushed :
      IsIdle pcb
      → 0 < length text
      → clean_queue last_ack.seg.ack_num (pushed env pcb text).data_queue ≡ []
  clean_queue-pushed idle some_text =
      rw idle.unqueued ((clean_queue_lem last_ack.seg.ack_num [] _ [] tt (omega arith) tt).0)

  check_sequence-last_ack :
      (w : World)
      → get_elem? w.pcbs pcb_id ≡ some (pushed env pcb text)
      → pcb.recv_context.next + pcb.recv_context.window < 2 ^ 32
      → check_sequence env last_ack pcb_id TcpPcbState.established w ≡ done (go w)
  unfolding check_sequence
  check_sequence-last_ack w there below = rw (there, acceptable-last_ack below) refl

  ack_connection-last_ack :
      (w : World)
      → get_elem? w.pcbs pcb_id ≡ some (pushed env pcb text)
      → IsIdle pcb
      → 0 < length text
      → ack_connection env last_ack pcb_id TcpPcbState.established w
        ≡ done (go (put_pcb w pcb_id (advance last_ack (pushed env pcb text))))
  unfolding ack_connection finish_closing
  ack_connection-last_ack w there idle some_text =
      let una = pcb.send_context.una in
      let next = pcb.send_context.next in
      rw
        (
          there,
          lt→ltb una (next + length text) (omega (arith, idle.all_acked)),
          le→leb (next + length text) (next + length text) (omega arith),
        )
        refl

  -- The block has no more to be acknowledged.
  pub arrives_connection-last_ack :
      (w : World)
      → get_elem? w.pcbs pcb_id ≡ some (pushed env pcb text)
      → IsIdle pcb
      → 0 < length text
      → pcb.recv_context.next + pcb.recv_context.window < 2 ^ 32
      → (pcb' : TcpPcb) × (arrives_connection env last_ack pcb_id TcpPcbState.established w
          ≡ done (put_pcb w pcb_id pcb'))
        × IsIdle pcb'
        × Keeps (pushed env pcb text) pcb'
  unfolding arrives_connection check_rst check_syn check_ack ack_by_state process_text check_fin
      tcp_flag_exists
  arrives_connection-last_ack w there idle some_text below =
      let (kept, acked, cleaned) = advance-Keeps last_ack (pushed env pcb text) in
      (
        advance last_ack (pushed env pcb text),
        rw (check_sequence-last_ack w there below, ack_connection-last_ack w there idle some_text)
            refl,
        record {
          all_acked = acked ∙ sym kept.send_next;
          unqueued = cleaned ∙ clean_queue-pushed idle some_text;
        },
        kept,
      )
