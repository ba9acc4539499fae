-- ===== src/Tcp/Transfer.antt =====
-- Data on its way through src/protocols/ip/tcp.rs: the segment, and the blocks at both ends.
pub mod Pushed
pub mod Taken
pub mod Acked
pub mod Exchange
use rust_user_net.Base.{
  le→leb, gt→leb, lt→ltb, ge→ltb, eq→==, ℕ, ◌+◌, ◌-◌, ◌%◌, ◌^◌, ◌<◌, ◌≤◌, ◌≡◌, ◌∙◌, refl, sym, ap,
  List, [], ◌∷◌, ◌++◌, Option, none, some, Bool, true, false, Run, done, ◌>>=◌, ◌>>◌, check, leb,
  ltb, ◌==◌, if◌then◌else◌, not, ◌&&◌, ◌||◌, get_elem?, set, get_elem?-set_self, arith, length,
  drop, min, bit_or,
}
use rust_user_net.Device.Types.{Env}
use rust_user_net.Ip.Route.{IpEndpoint}
use rust_user_net.Context.{Host}
use rust_user_net.Tcp.Types.{
  TcpPcb, TcpPcbState, TcpFlag, flag_as_u8, tcp_flag_exists, add_u32, tcp_default_itvl_micros,
}
use rust_user_net.Tcp.Pcbs.{add_data_queue}
use rust_user_net.Tcp.Segment.{output, output_segment, queued}
use rust_user_net.Tcp.World.{World, Arrival, Flow, go, put_pcb, wake_world, send_from}
use rust_user_net.Tcp.Sending.{SendState, SendRound, send_round, send_capacity, send_len}
use rust_user_net.Tcp.Phases.{
  check_sequence, acceptable, check_rst, check_syn, ack_by_state, ack_connection, finish_closing,
  check_ack, take_text, process_text, check_fin,
}
use rust_user_net.Tcp.Arrives.{arrives_connection}
use rust_user_net.Tcp.Advance.{IsIdle, Keeps, ack_connection-Keeps}

-- A segment that carries data, with ACK and PSH.
abbrev pub data_segment : ℕ → ℕ → ℕ → List ℕ → IpEndpoint → IpEndpoint → ℕ → Arrival
data_segment seq ack window text local remote random = record {
  seg = record { seq_num = seq; ack_num = ack; len = length text; window = window; urg_ptr = 0 };
  flags = 0x18;
  payload = text;
  len = length text;
  local = local;
  remote = remote;
  random = random;
}

-- The block after a round of `send` sent the data.
abbrev pub pushed : Env → TcpPcb → List ℕ → TcpPcb
pushed env pcb text = record pcb {
  data_queue =
      pcb.data_queue
      ++ record {
        first_sent_at = env.now;
        last_sent_at = env.now;
        retry_interval = tcp_default_itvl_micros;
        seq_num = pcb.send_context.next;
        flags = 0x18;
        payload = text;
      }
        ∷ [];
  send_context = record (pcb.send_context) { next = pcb.send_context.next + length text };
}

-- What `send` reads of an idle block.
abbrev pub read_of : TcpPcb → ℕ → SendState
read_of pcb mss = record {
  window = pcb.send_context.window;
  next = pcb.send_context.next;
  una = pcb.send_context.una;
  mss = mss;
}

-- The block that took the data of the segment it expects.
abbrev pub extended : TcpPcb → List ℕ → TcpPcb
extended pcb text = record pcb {
  buf = pcb.buf ++ text;
  recv_context = record (pcb.recv_context) {
    next = pcb.recv_context.next + length text;
    window = pcb.recv_context.window - length text;
  };
}

-- The numbers of the next segment with this data are not refused by the block, and do not overflow.
pub record TakesText (pcb : TcpPcb) (text : List ℕ) : Type 0 where
  pub some_text : 0 < length text
  pub room : length text ≤ pcb.recv_context.window
  pub small : pcb.recv_context.window < 2 ^ 16
  pub below : pcb.recv_context.next + pcb.recv_context.window < 2 ^ 32
