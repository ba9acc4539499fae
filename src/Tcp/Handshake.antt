-- ===== src/Tcp/Handshake.antt =====
-- The three segments of a handshake through `segment_arrives` of src/protocols/ip/tcp.rs, at the
-- listening block of one host and the connecting block of another.
pub mod Established
use rust_user_net.Base.{
  le→leb, gt→leb, lt→ltb, ge→ltb, ℕ, ◌+◌, ◌-◌, ◌%◌, ◌^◌, ◌<◌, ◌≤◌, ◌≡◌, refl, List, [], ◌∷◌, Option,
  none, some, Bool, true, false, Run, done, ◌>>=◌, ◌>>◌, check, leb, ltb, ◌==◌, if◌then◌else◌, not,
  ◌&&◌, get_elem?, set, get_elem?-set_self, arith,
}
use rust_user_net.Device.Types.{Env}
use rust_user_net.Ip.Route.{IpEndpoint}
use rust_user_net.Context.{Host}
use rust_user_net.Tcp.Types.{
  TcpPcb, TcpPcbState, TcpPcbMode, TcpFlag, flag_as_u8, tcp_flag_exists, is_socket, add_u32,
  pcb_buf_len, TcpDataQueueEntry,
}
use rust_user_net.Tcp.Pcbs.{add_data_queue, clean_data_queue, pcb_by_id}
use rust_user_net.Tcp.Segment.{output, output_segment, queued}
use rust_user_net.Tcp.World.{World, Arrival, Flow, go, put_pcb, wake_world}
use rust_user_net.Tcp.Phases.{
  check_sequence, acceptable, check_rst, check_syn, join_backlog, ack_syn_received, ack_by_state,
  check_ack, process_text, check_fin,
}
use rust_user_net.Tcp.Early.{arrives_listen, arrives_syn_sent, accepting, syn_sent_syn}
use rust_user_net.Tcp.Arrives.{arrives_connection}

-- A segment with no data.
abbrev pub segment_with : ℕ → ℕ → ℕ → ℕ → ℕ → IpEndpoint → IpEndpoint → ℕ → Arrival
segment_with seq ack len flags window local remote random = record {
  seg = record { seq_num = seq; ack_num = ack; len = len; window = window; urg_ptr = 0 };
  flags = flags;
  payload = [];
  len = 0;
  local = local;
  remote = remote;
  random = random;
}

next_lem : (n m : ℕ) → n + m < 2 ^ 32 → add_u32 n m ≡ done (n + m)
next_lem n m h = ground arith

-- The block that took the SYN, before and after SYN and ACK are sent from it.
abbrev pub requested : TcpPcb → ℕ → ℕ → IpEndpoint → IpEndpoint → TcpPcb
requested pcb x y local remote = record pcb {
  local = local;
  remote = remote;
  recv_context = record (pcb.recv_context) { window = pcb_buf_len; next = x + 1 };
  iss = y;
}

abbrev pub answered : Env → TcpPcb → ℕ → TcpPcb
answered env pcb y =
    let sent = queued env pcb 0x12 [] in
    record sent {
      send_context = record (sent.send_context) { next = y + 1; una = y };
      state = TcpPcbState.syn_received;
    }

module _ (env : Env) (x y : ℕ) (local remote : IpEndpoint) (window : ℕ) where
  pub arrives_listen-syn :
      (pcb_id : ℕ) (pcb : TcpPcb) (w : World) (host : Host)
      → is_socket pcb.mode ≡ false
      → x + 1 < 2 ^ 32
      → y + 1 < 2 ^ 32
      → output_segment env y (x + 1) 0x12 pcb_buf_len [] local remote w.host ≡ done (0, host)
      → arrives_listen env (segment_with x 0 1 0x02 window local remote y) pcb_id pcb w
        ≡ done (record w {
          host = host;
          pcbs = set w.pcbs pcb_id (answered env (requested pcb x y local remote) y);
        })
  unfolding arrives_listen accepting tcp_flag_exists output queued add_data_queue
  arrives_listen-syn pcb_id pcb w host hm hx hy ho =
      rw (hm, next_lem x 1 hx, ho, next_lem y 1 hy) refl

-- The block that sent the SYN, after SYN and ACK arrived.
abbrev pub connected : TcpPcb → ℕ → ℕ → ℕ → TcpPcb
connected pcb x y window =
    let acked = clean_data_queue (record pcb {
      recv_context = record (pcb.recv_context) { next = y + 1 };
      irs = y;
      send_context = record (pcb.send_context) { una = x + 1 };
    }) in
    record acked {
      state = TcpPcbState.established;
      send_context = record (acked.send_context) { window = window; wl1 = y; wl2 = x + 1 };
    }

-- A block that sent a SYN with the number `x`, and nothing else.
pub record IsRequesting (x : ℕ) (pcb : TcpPcb) : Type 0 where
  pub at_iss : pcb.iss ≡ x
  pub at_una : pcb.send_context.una ≡ x
  pub at_next : pcb.send_context.next ≡ x + 1
  pub entry : TcpDataQueueEntry
  pub queue : pcb.data_queue ≡ entry ∷ []
  pub entry_seq : entry.seq_num ≡ x

module _ (env : Env) (x y : ℕ) (window random : ℕ) where
  pub arrives_syn_sent-answer :
      (pcb_id : ℕ) (pcb : TcpPcb) (w : World) (host : Host)
      → IsRequesting x pcb
      → y + 1 < 2 ^ 32
      → output_segment env
          (x + 1)
          (y + 1)
          0x10
          pcb.recv_context.window
          []
          pcb.local
          pcb.remote
          w.host
        ≡ done (0, host)
      → arrives_syn_sent env
          (segment_with y (x + 1) 1 0x12 window pcb.local pcb.remote random)
          pcb_id
          pcb
          w
        ≡ done (
            wake_world
              (record w { host = host; pcbs = set w.pcbs pcb_id (connected pcb x y window) })
              pcb.sender)
  unfolding arrives_syn_sent syn_sent_syn tcp_flag_exists output queued add_data_queue
      clean_data_queue
  arrives_syn_sent-answer pcb_id pcb w host v hy ho =
      rw
        (
          gt→leb (x + 1) pcb.iss (omega (arith, v.at_iss)),
          ge→ltb pcb.send_context.next (x + 1) (omega (arith, v.at_next)),
          le→leb pcb.send_context.una (x + 1) (omega (arith, v.at_una)),
          le→leb (x + 1) pcb.send_context.next (omega (arith, v.at_next)),
          next_lem y 1 hy,
          lt→ltb pcb.iss (x + 1) (omega (arith, v.at_iss)),
          v.at_next,
          ho,
        )
        refl

-- A block that answered a SYN with the number `x` by one with the number `y`.
pub record IsAnswering (x y : ℕ) (pcb : TcpPcb) : Type 0 where
  pub at_recv : pcb.recv_context.next ≡ x + 1
  pub at_window : pcb.recv_context.window ≡ pcb_buf_len
  pub at_una : pcb.send_context.una ≡ y
  pub at_next : pcb.send_context.next ≡ y + 1
  pub no_parent : pcb.parent_id ≡ none

module _ (env : Env) (x y : ℕ) (local remote : IpEndpoint) (window random : ℕ) where
  abbrev pub last_segment : Arrival
  last_segment = segment_with (x + 1) (y + 1) 0 0x10 window local remote random

  check_sequence-answering :
      (pcb_id : ℕ) (pcb : TcpPcb) (w : World)
      → get_elem? w.pcbs pcb_id ≡ some pcb
      → IsAnswering x y pcb
      → x + 1 + pcb_buf_len < 2 ^ 32
      → check_sequence env last_segment pcb_id TcpPcbState.syn_received w ≡ done (go w)
  unfolding check_sequence acceptable
  check_sequence-answering pcb_id pcb w h v hx =
      rw
        (
          h,
          v.at_window,
          v.at_recv,
          le→leb (x + 1) (x + 1) (omega arith),
          next_lem (x + 1) pcb_buf_len hx,
          lt→ltb (x + 1) (x + 1 + pcb_buf_len) (omega arith),
        )
        refl

  ack_syn_received-answering :
      (pcb_id : ℕ) (pcb : TcpPcb) (w : World)
      → get_elem? w.pcbs pcb_id ≡ some pcb
      → IsAnswering x y pcb
      → ack_syn_received env last_segment pcb_id w
        ≡ done (
            go (
              wake_world
                (put_pcb w pcb_id (record pcb { state = TcpPcbState.established }))
                pcb.sender))
  unfolding ack_syn_received join_backlog
  ack_syn_received-answering pcb_id pcb w h v =
      rw
        (
          h,
          v.at_una,
          v.at_next,
          le→leb y (y + 1) (omega arith),
          le→leb (y + 1) (y + 1) (omega arith),
          v.no_parent,
        )
        refl

  pub arrives_connection-ack :
      (pcb_id : ℕ) (pcb : TcpPcb) (w : World)
      → get_elem? w.pcbs pcb_id ≡ some pcb
      → IsAnswering x y pcb
      → x + 1 + pcb_buf_len < 2 ^ 32
      → arrives_connection env last_segment pcb_id TcpPcbState.syn_received w
        ≡ done (
            wake_world
              (put_pcb w pcb_id (record pcb { state = TcpPcbState.established }))
              pcb.sender)
  unfolding arrives_connection check_rst check_syn check_ack ack_by_state process_text check_fin
      tcp_flag_exists
  arrives_connection-ack pcb_id pcb w h v hx =
      rw (check_sequence-answering pcb_id pcb w h v hx, ack_syn_received-answering pcb_id pcb w h v)
        refl
