-- ===== src/Tcp/Early.antt =====
-- `segment_arrives` of src/protocols/ip/tcp.rs for a closed port, in LISTEN and in SYN-SENT.
use rust_user_net.Base.{
  ℕ, List, [], some, Bool, ◌&&◌, ◌||◌, bit_or, Run, done, ◌>>=◌, unwrap, ltb, leb, if◌then◌else◌,
  set,
}
use rust_user_net.Device.Types.{Env}
use rust_user_net.Tcp.Types.{
  TcpPcb, TcpPcbState, TcpPcbMode, TcpFlag, flag_as_u8, tcp_flag_exists, is_socket, pcb_buf_len,
  add_u32,
}
use rust_user_net.Tcp.Pcbs.{new_entry, clean_data_queue, pcb_by_id}
use rust_user_net.Tcp.Segment.{output}
use rust_user_net.Tcp.World.{World, Arrival, reply, reply_rst, send_from, release_at, wake_world}

abbrev pub has : Arrival → TcpFlag → Bool
has a flag = tcp_flag_exists a.flags flag

abbrev pub syn_ack : ℕ
syn_ack = bit_or (flag_as_u8 TcpFlag.syn) (flag_as_u8 TcpFlag.ack)

-- No block, or a closed one.
unfoldable pub arrives_closed : Env → Arrival → World → Run World
arrives_closed env a w =
    if has a TcpFlag.rst then done w else if has a TcpFlag.ack then reply_rst env a w else do
      ack_num ← add_u32 a.seg.seq_num a.seg.len
      reply env a 0 ack_num (bit_or (flag_as_u8 TcpFlag.rst) (flag_as_u8 TcpFlag.ack)) w

-- The block that takes a connection request: a new one for a socket, else the listening one.
unfoldable pub accepting : World → ℕ → TcpPcb → Run (ℕ × TcpPcb × List TcpPcb)
accepting w pcb_id pcb =
    if is_socket pcb.mode
    then (do
      (new_id, pcbs) ← unwrap (new_entry w.pcbs)
      new_pcb ← pcb_by_id pcbs new_id
      done (new_id, record new_pcb { mode = TcpPcbMode.socket; parent_id = some pcb_id }, pcbs))
    else done (pcb_id, pcb, w.pcbs)

unfoldable pub arrives_listen : Env → Arrival → ℕ → TcpPcb → World → Run World
arrives_listen env a pcb_id listening w =
    if has a TcpFlag.rst
    then done w
    else if has a TcpFlag.ack
    then reply_rst env a w
    else if has a TcpFlag.syn
    then (do
      (new_id, taken, pcbs) ← accepting w pcb_id listening
      recv_next ← add_u32 a.seg.seq_num 1
      let pcb = record taken {
        local = a.local;
        remote = a.remote;
        recv_context = record (taken.recv_context) { window = pcb_buf_len; next = recv_next };
        iss = a.random;
      }
      (_, sent, host) ← output env pcb syn_ack [] w.host
      send_next ← add_u32 sent.iss 1
      let pcb' = record sent {
        send_context = record (sent.send_context) { next = send_next; una = sent.iss };
        state = TcpPcbState.syn_received;
      }
      done (record w { host = host; pcbs = set pcbs new_id pcb' }))
    else done w

-- Whether the acknowledgement is one of what was sent.
abbrev pub ack_in_flight : Arrival → TcpPcb → Bool
ack_in_flight a pcb =
    leb pcb.send_context.una a.seg.ack_num && leb a.seg.ack_num pcb.send_context.next

-- The fourth check of SYN-SENT, on a SYN.
unfoldable pub syn_sent_syn : Env → Arrival → ℕ → TcpPcb → Bool → World → Run World
syn_sent_syn env a pcb_id pcb acceptable w = do
  recv_next ← add_u32 a.seg.seq_num 1
  let pcb₁ = record pcb {
    recv_context = record (pcb.recv_context) { next = recv_next };
    irs = a.seg.seq_num;
  }
  let pcb₂ =
      if acceptable
      then clean_data_queue
          (record pcb₁ { send_context = record (pcb₁.send_context) { una = a.seg.ack_num } })
      else pcb₁
  if ltb pcb₂.iss pcb₂.send_context.una
      then (do
        (_, pcb₃, host) ←
            output env (record pcb₂ { state = TcpPcbState.established }) (flag_as_u8 TcpFlag.ack) []
              w.host
        let pcb₄ = record pcb₃ {
          send_context = record (pcb₃.send_context) {
            window = a.seg.window;
            wl1 = a.seg.seq_num;
            wl2 = a.seg.ack_num;
          };
        }
        done (wake_world (record w { host = host; pcbs = set w.pcbs pcb_id pcb₄ }) pcb₄.sender))
      else send_from env pcb_id (record pcb₂ { state = TcpPcbState.syn_received }) syn_ack w

unfoldable pub arrives_syn_sent : Env → Arrival → ℕ → TcpPcb → World → Run World
arrives_syn_sent env a pcb_id pcb w =
    if has a TcpFlag.ack && (leb a.seg.ack_num pcb.iss || ltb pcb.send_context.next a.seg.ack_num)
    then reply_rst env a w
    else let acceptable = has a TcpFlag.ack && ack_in_flight a pcb in
      if has a TcpFlag.rst
      then if acceptable then release_at pcb_id w else done w
      else if has a TcpFlag.syn
      then syn_sent_syn env a pcb_id pcb acceptable w
      else done w
