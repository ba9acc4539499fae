-- ===== src/Tcp/Transfer/Taken.antt =====
-- The segment that a block of src/protocols/ip/tcp.rs expects next, with data, at this block.
use rust_user_net.Base.{
  le→leb, lt→ltb, ge→ltb, ℕ, ◌+◌, ◌-◌, ◌%◌, ◌^◌, ◌≤◌, ◌≡◌, refl, List, [], some, done, get_elem?,
  get_elem?-set_self, arith, length,
}
use rust_user_net.Device.Types.{Env}
use rust_user_net.Ip.Route.{IpEndpoint}
use rust_user_net.Context.{Host}
use rust_user_net.Tcp.Types.{TcpPcb, TcpPcbState, tcp_flag_exists}
use rust_user_net.Tcp.Segment.{output, output_segment, queued}
use rust_user_net.Tcp.World.{World, Arrival, go, put_pcb, wake_world, send_from}
use rust_user_net.Tcp.Phases.{
  check_sequence, acceptable, check_rst, check_syn, ack_by_state, check_ack, take_text,
  process_text, check_fin,
}
use rust_user_net.Tcp.Arrives.{arrives_connection}
use rust_user_net.Tcp.Advance.{Keeps, ack_connection-Keeps}
use rust_user_net.Tcp.Transfer.{data_segment, extended, TakesText}

module _ (env : Env) (window random pcb_id : ℕ) (local remote : IpEndpoint) (pcb : TcpPcb)
    (text : List ℕ) where
  abbrev pub next_data : Arrival
  next_data =
      data_segment pcb.recv_context.next pcb.send_context.next window text local remote random

  check_sequence-next_data :
      (w : World)
      → get_elem? w.pcbs pcb_id ≡ some pcb
      → TakesText pcb text
      → check_sequence env next_data pcb_id TcpPcbState.established w ≡ done (go w)
  unfolding check_sequence acceptable
  check_sequence-next_data w there t =
      let next = pcb.recv_context.next in
      let win = pcb.recv_context.window in
      rw
        (
          there,
          ge→ltb (length text) 1 t.some_text,
          ge→ltb win 1 (omega (arith, t.some_text, t.room)),
          le→leb next next (omega arith),
          lt→ltb (next + win) (2 ^ 32) t.below,
          lt→ltb next (next + win) (omega (arith, t.some_text, t.room)),
        )
        refl

  take_text-next_data :
      (pcb' : TcpPcb)
      → pcb'.recv_context ≡ pcb.recv_context
      → TakesText pcb text
      → take_text next_data pcb' ≡ done (extended pcb' text)
  unfolding take_text
  take_text-next_data pcb' same t =
      let n = length text in
      let small : n % 2 ^ 16 ≡ n = omega (arith, t.room, t.small) in
      rw
        (
          same,
          lt→ltb (pcb.recv_context.next + n) (2 ^ 32) (omega (arith, t.room, t.below)),
          small,
          le→leb n pcb.recv_context.window t.room,
        )
        refl

  process_text-next_data :
      (pcb' : TcpPcb) (w : World) (host : Host) (sent : ℕ)
      → get_elem? w.pcbs pcb_id ≡ some pcb'
      → Keeps pcb pcb'
      → TakesText pcb text
      → output_segment env pcb.send_context.next
          (pcb.recv_context.next + length text)
          0x10
          (pcb.recv_context.window - length text)
          []
          pcb.local
          pcb.remote
          w.host
        ≡ done (sent, host)
      → process_text env next_data pcb_id TcpPcbState.established w
        ≡ done (
            go (
              wake_world
                (put_pcb (record w { host = host }) pcb_id (extended pcb' text))
                pcb'.sender))
  unfolding process_text tcp_flag_exists send_from output queued
  process_text-next_data pcb' w host sent there kept t o =
      let o' : output_segment env pcb'.send_context.next (pcb'.recv_context.next + length text) 0x10
            (pcb'.recv_context.window - length text) [] pcb'.local pcb'.remote w.host
          ≡ done (sent, host) =
        rw (kept.send_next, kept.received, kept.local_end, kept.remote_end) o in
      rw (lt→ltb 0 (length text) t.some_text, there, take_text-next_data pcb' kept.received t, o')
        refl

  -- The segment is answered by an acknowledgement of all of it, and the reader of the block is woken.
  pub arrives_connection-next_data :
      (w : World) (host : Host) (sent : ℕ)
      → get_elem? w.pcbs pcb_id ≡ some pcb
      → pcb.send_context.una ≤ pcb.send_context.next
      → TakesText pcb text
      → output_segment env pcb.send_context.next
          (pcb.recv_context.next + length text)
          0x10
          (pcb.recv_context.window - length text)
          []
          pcb.local
          pcb.remote
          w.host
        ≡ done (sent, host)
      → (pcb' : TcpPcb) × (arrives_connection env next_data pcb_id TcpPcbState.established w
          ≡ done (
              wake_world
                (put_pcb
                  (record (put_pcb w pcb_id pcb') { host = host })
                  pcb_id
                  (extended pcb' text))
                pcb'.sender))
        × (pcb'.send_context.una ≡ pcb'.send_context.next)
        × Keeps pcb pcb'
  unfolding arrives_connection check_rst check_syn check_ack ack_by_state check_fin tcp_flag_exists
  arrives_connection-next_data w host sent there live t o =
      let (pcb', acked, all, kept) =
        ack_connection-Keeps env next_data pcb_id pcb w there refl live in
      let there' = get_elem?-set_self w.pcbs pcb_id pcb' pcb there in
      (
        pcb',
        rw
            (
              check_sequence-next_data w there t,
              acked,
              process_text-next_data pcb' (put_pcb w pcb_id pcb') host sent there' kept t o,
            )
            refl,
        all,
        kept,
      )
