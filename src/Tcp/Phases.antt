-- ===== src/Tcp/Phases.antt =====
-- The checks of `segment_arrives` of src/protocols/ip/tcp.rs for a connection: sequence number,
-- RST, SYN, ACK, text and FIN. `pcb_state` is the state that the block had when it was selected.
use rust_user_net.Base.{
  ℕ, ◌-◌, ◌%◌, ◌^◌, ◌++◌, Option, none, some, Bool, true, false, not, ◌&&◌, ◌||◌, Run, done, ◌>>=◌,
  ◌>>◌, check, ltb, leb, ◌==◌, if◌then◌else◌,
}
use rust_user_net.Device.Types.{Env}
use rust_user_net.Tcp.Types.{TcpPcb, TcpPcbState, TcpFlag, flag_as_u8, state_eq, add_u32}
use rust_user_net.Tcp.Pcbs.{clean_data_queue, set_wait_time, add_backlog, pcb_by_id}
use rust_user_net.Tcp.World.{
  World, Arrival, Flow, stop, go, stopped, put_pcb, reply_rst, send_from, release_at, wake_world,
}
use rust_user_net.Tcp.Early.{has, ack_in_flight}

-- The eight states from SYN-RECEIVED on.
abbrev pub is_connection : TcpPcbState → Bool
is_connection TcpPcbState.syn_received = true
is_connection TcpPcbState.established = true
is_connection TcpPcbState.fin_wait1 = true
is_connection TcpPcbState.fin_wait2 = true
is_connection TcpPcbState.close_wait = true
is_connection TcpPcbState.closing = true
is_connection TcpPcbState.last_ack = true
is_connection TcpPcbState.time_wait = true
is_connection _ = false

-- `recv.next <= seq && seq < recv.next + recv.window`; the sum is made only behind the first test.
abbrev pub in_window : TcpPcb → ℕ → Run Bool
in_window pcb seq =
    if leb pcb.recv_context.next seq
    then (do end ← add_u32 pcb.recv_context.next pcb.recv_context.window; done (ltb seq end))
    else done false

unfoldable pub acceptable : Arrival → TcpPcb → Run Bool
acceptable a pcb =
    if ltb a.seg.len 1
    then if ltb pcb.recv_context.window 1
      then done (a.seg.seq_num == pcb.recv_context.next)
      else in_window pcb a.seg.seq_num
    else if ltb pcb.recv_context.window 1
    then done false
    else (do
      first ← in_window pcb a.seg.seq_num
      if first
          then done true
          else (do end ← add_u32 a.seg.seq_num a.seg.len; in_window pcb (end - 1)))

-- First: the sequence number.
unfoldable pub check_sequence : Env → Arrival → ℕ → TcpPcbState → World → Run Flow
check_sequence env a pcb_id pcb_state w =
    if is_connection pcb_state
    then (do
      pcb ← pcb_by_id w.pcbs pcb_id
      good ← acceptable a pcb
      if good
          then done (go w)
          else if has a TcpFlag.rst
          then stopped (send_from env pcb_id pcb (flag_as_u8 TcpFlag.ack) w)
          else done (stop w))
    else done (go w)

-- Second: RST. In the three last states the block is released whatever the flags.
unfoldable pub check_rst : Arrival → ℕ → TcpPcbState → World → Run Flow
check_rst a pcb_id TcpPcbState.syn_received w =
    if has a TcpFlag.rst then stopped (release_at pcb_id w) else done (go w)
check_rst a pcb_id TcpPcbState.established w =
    if has a TcpFlag.rst then stopped (release_at pcb_id w) else done (go w)
check_rst a pcb_id TcpPcbState.fin_wait1 w =
    if has a TcpFlag.rst then stopped (release_at pcb_id w) else done (go w)
check_rst a pcb_id TcpPcbState.fin_wait2 w =
    if has a TcpFlag.rst then stopped (release_at pcb_id w) else done (go w)
check_rst a pcb_id TcpPcbState.close_wait w =
    if has a TcpFlag.rst then stopped (release_at pcb_id w) else done (go w)
check_rst a pcb_id TcpPcbState.closing w = stopped (release_at pcb_id w)
check_rst a pcb_id TcpPcbState.last_ack w = stopped (release_at pcb_id w)
check_rst a pcb_id TcpPcbState.time_wait w = stopped (release_at pcb_id w)
check_rst a pcb_id _ w = done (go w)

-- Fourth: SYN.
unfoldable pub check_syn : Arrival → ℕ → TcpPcbState → World → Run Flow
check_syn a pcb_id pcb_state w =
    if is_connection pcb_state && has a TcpFlag.syn
    then stopped (release_at pcb_id w)
    else done (go w)

-- The parent of a socket's connection takes it into its backlog and is woken.
unfoldable pub join_backlog : ℕ → Option ℕ → World → Run World
join_backlog pcb_id none w = done w
join_backlog pcb_id (some parent_id) w = do
  parent ← pcb_by_id w.pcbs parent_id
  let parent' = add_backlog parent pcb_id
  done (wake_world (put_pcb w parent_id parent') parent'.sender)

unfoldable pub ack_syn_received : Env → Arrival → ℕ → World → Run Flow
ack_syn_received env a pcb_id w = do
  pcb ← pcb_by_id w.pcbs pcb_id
  if ack_in_flight a pcb
      then (do
        let pcb' = record pcb { state = TcpPcbState.established }
        w' ← join_backlog pcb_id pcb'.parent_id (wake_world (put_pcb w pcb_id pcb') pcb'.sender)
        done (go w'))
      else stopped (reply_rst env a w)

-- A block whose `send.una` moves up, with the window of the segment if that is a newer one.
unfoldable pub advance : Arrival → TcpPcb → TcpPcb
advance a pcb =
    let pcb' =
      clean_data_queue
        (record pcb { send_context = record (pcb.send_context) { una = a.seg.ack_num } }) in
    if ltb pcb'.send_context.wl1 a.seg.seq_num
      || (pcb'.send_context.wl1 == a.seg.seq_num && leb pcb'.send_context.wl2 a.seg.ack_num)
    then record pcb' {
      send_context = record (pcb'.send_context) {
        window = a.seg.window;
        wl1 = a.seg.seq_num;
        wl2 = a.seg.ack_num;
      };
    }
    else pcb'

-- In CLOSING, an acknowledgement of everything that was sent leads to TIME-WAIT.
unfoldable pub finish_closing : Env → Arrival → ℕ → TcpPcbState → TcpPcb → World → World
finish_closing env a pcb_id pcb_state pcb w =
    if state_eq pcb_state TcpPcbState.closing && a.seg.ack_num == pcb.send_context.next
    then wake_world
        (put_pcb w pcb_id (set_wait_time env.now (record pcb { state = TcpPcbState.time_wait })))
        pcb.sender
    else put_pcb w pcb_id pcb

unfoldable pub ack_connection : Env → Arrival → ℕ → TcpPcbState → World → Run Flow
ack_connection env a pcb_id pcb_state w = do
  pcb ← pcb_by_id w.pcbs pcb_id
  if ltb pcb.send_context.una a.seg.ack_num && leb a.seg.ack_num pcb.send_context.next
      then done (go (finish_closing env a pcb_id pcb_state (advance a pcb) w))
      else if ltb a.seg.ack_num pcb.send_context.una
      then done (go (finish_closing env a pcb_id pcb_state pcb w))
      else if ltb pcb.send_context.next a.seg.ack_num
      then stopped (send_from env pcb_id pcb (flag_as_u8 TcpFlag.ack) w)
      else done (go (finish_closing env a pcb_id pcb_state pcb w))

-- The fifth check on a segment with ACK, by the state.
unfoldable pub ack_by_state : Env → Arrival → ℕ → TcpPcbState → World → Run Flow
ack_by_state env a pcb_id TcpPcbState.syn_received w = ack_syn_received env a pcb_id w
ack_by_state env a pcb_id TcpPcbState.established w =
    ack_connection env a pcb_id TcpPcbState.established w
ack_by_state env a pcb_id TcpPcbState.fin_wait1 w =
    ack_connection env a pcb_id TcpPcbState.fin_wait1 w
ack_by_state env a pcb_id TcpPcbState.fin_wait2 w =
    ack_connection env a pcb_id TcpPcbState.fin_wait2 w
ack_by_state env a pcb_id TcpPcbState.close_wait w =
    ack_connection env a pcb_id TcpPcbState.close_wait w
ack_by_state env a pcb_id TcpPcbState.closing w = ack_connection env a pcb_id TcpPcbState.closing w
ack_by_state env a pcb_id TcpPcbState.last_ack w = do
  pcb ← pcb_by_id w.pcbs pcb_id
  if a.seg.ack_num == pcb.send_context.next then stopped (release_at pcb_id w) else done (stop w)
ack_by_state env a pcb_id TcpPcbState.time_wait w =
    if has a TcpFlag.fin
    then (do
      pcb ← pcb_by_id w.pcbs pcb_id
      done (go (put_pcb w pcb_id (set_wait_time env.now pcb))))
    else done (go w)
ack_by_state env a pcb_id _ w = done (go w)

-- Fifth: ACK.
unfoldable pub check_ack : Env → Arrival → ℕ → TcpPcbState → World → Run Flow
check_ack env a pcb_id pcb_state w =
    if not (has a TcpFlag.ack) then done (stop w) else ack_by_state env a pcb_id pcb_state w

abbrev pub takes_text : TcpPcbState → Bool
takes_text TcpPcbState.established = true
takes_text TcpPcbState.fin_wait1 = true
takes_text TcpPcbState.fin_wait2 = true
takes_text _ = false

-- The block that took the text: `window -= len as u16` is checked.
unfoldable pub take_text : Arrival → TcpPcb → Run TcpPcb
take_text a pcb = do
  next ← add_u32 a.seg.seq_num a.seg.len
  check (leb (a.len % 2 ^ 16) pcb.recv_context.window)
  done (record pcb {
    buf = pcb.buf ++ a.payload;
    recv_context = record (pcb.recv_context) {
      next = next;
      window = pcb.recv_context.window - a.len % 2 ^ 16;
    };
  })

-- Seventh: the text.
unfoldable pub process_text : Env → Arrival → ℕ → TcpPcbState → World → Run Flow
process_text env a pcb_id pcb_state w =
    if takes_text pcb_state && ltb 0 a.len
    then (do
      pcb ← pcb_by_id w.pcbs pcb_id
      pcb' ← take_text a pcb
      w' ← send_from env pcb_id pcb' (flag_as_u8 TcpFlag.ack) w
      done (go (wake_world w' pcb'.sender)))
    else done (go w)

-- The state after a FIN, and the waiting time of TIME-WAIT.
unfoldable pub after_fin : Env → Arrival → TcpPcbState → TcpPcb → TcpPcb
after_fin env a TcpPcbState.syn_received pcb = record pcb { state = TcpPcbState.close_wait }
after_fin env a TcpPcbState.established pcb = record pcb { state = TcpPcbState.close_wait }
after_fin env a TcpPcbState.fin_wait1 pcb =
    if a.seg.ack_num == pcb.send_context.next
    then set_wait_time env.now (record pcb { state = TcpPcbState.time_wait })
    else record pcb { state = TcpPcbState.closing }
after_fin env a TcpPcbState.fin_wait2 pcb = record pcb { state = TcpPcbState.time_wait }
after_fin env a TcpPcbState.time_wait pcb = set_wait_time env.now pcb
after_fin env a _ pcb = pcb

abbrev pub wakes_on_fin : TcpPcbState → Bool
wakes_on_fin TcpPcbState.syn_received = true
wakes_on_fin TcpPcbState.established = true
wakes_on_fin _ = false

abbrev pub drops_fin : TcpPcbState → Bool
drops_fin TcpPcbState.closed = true
drops_fin TcpPcbState.listen = true
drops_fin TcpPcbState.syn_sent = true
drops_fin _ = false

-- Eighth: FIN.
unfoldable pub check_fin : Env → Arrival → ℕ → TcpPcbState → World → Run Flow
check_fin env a pcb_id pcb_state w =
    if has a TcpFlag.fin
    then (do
      pcb ← pcb_by_id w.pcbs pcb_id
      if drops_fin pcb_state then done (stop w) else (do
        next ← add_u32 a.seg.seq_num 1
        let acked = record pcb { recv_context = record (pcb.recv_context) { next = next } }
        w' ← send_from env pcb_id acked (flag_as_u8 TcpFlag.ack) w
        pcb' ← pcb_by_id w'.pcbs pcb_id
        let pcb'' = after_fin env a pcb_state pcb'
        let w'' = put_pcb w' pcb_id pcb''
        done (go (if wakes_on_fin pcb_state then wake_world w'' pcb''.sender else w''))))
    else done (go w)
