-- ===== src/Tcp/Live/Phases.antt =====
-- The checks of `segment_arrives`, for a connection: no block enters another state.
use rust_user_net.Base.{
  ℕ, ◌≡◌, refl, Option, none, some, Bool, true, false, Run, done, ◌>>=◌, ◌>>◌, Ensures,
  Ensures-done, Ensures-bind, Ensures-then, Ensures-if, Ensures-test, ltb, leb, if◌then◌else◌, not,
  ◌&&◌, ◌==◌, arith,
}
use rust_user_net.Device.Types.{Env}
use rust_user_net.Tcp.Types.{TcpPcb, TcpPcbState}
use rust_user_net.Tcp.Pcbs.{clean_data_queue, set_wait_time, add_backlog}
use rust_user_net.Tcp.World.{World, Arrival, Flow, stop, go, world_of, and_then, wake_world}
use rust_user_net.Tcp.Phases.{
  check_sequence, check_rst, check_syn, join_backlog, ack_syn_received, advance, finish_closing,
  ack_connection, ack_by_state, check_ack, take_text, process_text, after_fin, check_fin,
  wakes_on_fin,
}
use rust_user_net.Tcp.Live.{
  IsReached, IsLive, AllLive, pcb_by_id_rule, output_rule, world_rule, pcb_rule, set-AllLive,
  world-AllLive, free, closed, listen, syn_sent, syn_received, established, close_wait,
  reply-AllLive, send_from-AllLive, release_at-AllLive,
}

abbrev pub FlowLive : Flow → Type 0
FlowLive f = AllLive (world_of f)

-- A call after which the handler returns.
stopped-FlowLive : {m : Run World} → Ensures AllLive m → Ensures FlowLive (m >>= λ w. done (stop w))
stopped-FlowLive {m} h = Ensures-then m h (λ w hw. Ensures-done hw)

pub and_then-FlowLive :
    (f : Flow) (next : World → Run Flow)
    → FlowLive f
    → ((w : World) → AllLive w → Ensures FlowLive (next w))
    → Ensures FlowLive (and_then f next)
and_then-FlowLive (stop w) next h hn = Ensures-done h
and_then-FlowLive (go w) next h hn = hn w h

pub ruleset live_rules = (
  Ensures-if, Ensures-done, pcb_by_id_rule, output_rule, world_rule, pcb_rule, Ensures-bind,
  send_from-AllLive, reply-AllLive, release_at-AllLive, set-AllLive, world-AllLive, established,
  close_wait,
)

-- The segment, and the block that was selected for it.
module _ (env : Env) (a : Arrival) (pcb_id : ℕ) where
  pub check_rst-FlowLive :
      {s : TcpPcbState} (w : World)
      → IsReached s
      → AllLive w
      → Ensures FlowLive (check_rst a pcb_id s w)
  unfolding check_rst
  check_rst-FlowLive w free h = Ensures-done h
  check_rst-FlowLive w closed h = Ensures-done h
  check_rst-FlowLive w listen h = Ensures-done h
  check_rst-FlowLive w syn_sent h = Ensures-done h
  check_rst-FlowLive w syn_received h = search live_rules
  check_rst-FlowLive w established h = search live_rules
  check_rst-FlowLive w close_wait h = search live_rules

  pub check_syn-FlowLive :
      (s : TcpPcbState) (w : World) → AllLive w → Ensures FlowLive (check_syn a pcb_id s w)
  unfolding check_syn
  check_syn-FlowLive s w h = search live_rules

  pub check_sequence-FlowLive :
      (s : TcpPcbState) (w : World) → AllLive w → Ensures FlowLive (check_sequence env a pcb_id s w)
  unfolding check_sequence
  check_sequence-FlowLive s w h = search (live_rules) depth 12

  join_backlog-AllLive :
      (parent : Option ℕ) (w : World) → AllLive w → Ensures AllLive (join_backlog pcb_id parent w)
  unfolding join_backlog add_backlog
  join_backlog-AllLive none w h = Ensures-done h
  join_backlog-AllLive (some parent_id) w h = search (live_rules) depth 12

  ack_syn_received-FlowLive :
      (w : World) → AllLive w → Ensures FlowLive (ack_syn_received env a pcb_id w)
  unfolding ack_syn_received
  ack_syn_received-FlowLive w h = pcb_by_id_rule w.pcbs pcb_id h.each (λ pcb hp.
      Ensures-if _
        (world_rule
          (join_backlog-AllLive pcb.parent_id _
            (set-AllLive w.pcbs pcb_id _ w.host _ h.each (established, hp.1)))
          (λ w' h'. Ensures-done h'))
        (stopped-FlowLive (reply-AllLive env a _ _ _ w h)))

  advance-state : (pcb : TcpPcb) → (advance a pcb).state ≡ pcb.state
  unfolding advance clean_data_queue
  advance-state pcb = ground arith

  advance-send :
      (pcb : TcpPcb)
      → ((advance a pcb).send_context.una ≡ a.seg.ack_num)
        × ((advance a pcb).send_context.next ≡ pcb.send_context.next)
  unfolding advance clean_data_queue
  advance-send pcb = ground arith

  -- What is acknowledged was sent.
  advance-IsLive :
      (pcb : TcpPcb)
      → (ltb pcb.send_context.una a.seg.ack_num && leb a.seg.ack_num pcb.send_context.next) ≡ true
      → IsLive pcb
      → IsLive (advance a pcb)
  advance-IsLive pcb e h =
      let (una, next) = advance-send pcb in
      (rw (advance-state pcb) h.0, rw (una, next) (ground arith))

  -- CLOSING is the one state in which a block enters TIME-WAIT here.
  finish_closing-AllLive :
      {s : TcpPcbState} (pcb : TcpPcb) (w : World)
      → IsReached s
      → IsLive pcb
      → AllLive w
      → AllLive (finish_closing env a pcb_id s pcb w)
  unfolding finish_closing
  finish_closing-AllLive pcb w free hp h = search live_rules
  finish_closing-AllLive pcb w _ hp h = search live_rules

  ack_connection-FlowLive :
      (s : TcpPcbState) (w : World)
      → IsReached s
      → AllLive w
      → Ensures FlowLive (ack_connection env a pcb_id s w)
  unfolding ack_connection
  ack_connection-FlowLive s w hs h = pcb_by_id_rule w.pcbs pcb_id h.each (λ pcb hp.
      Ensures-test
        (ltb pcb.send_context.una a.seg.ack_num && leb a.seg.ack_num pcb.send_context.next)
        (λ e.
          Ensures-done (finish_closing-AllLive (advance a pcb) w hs (advance-IsLive pcb e hp) h))
        (λ _. Ensures-if _ (Ensures-done (finish_closing-AllLive pcb w hs hp h)) (
          Ensures-if _ (stopped-FlowLive (send_from-AllLive env pcb_id pcb _ w h hp))
            (Ensures-done (finish_closing-AllLive pcb w hs hp h)))))

  set_wait_time-state : (pcb : TcpPcb) → (set_wait_time env.now pcb).state ≡ pcb.state
  unfolding set_wait_time
  set_wait_time-state pcb = ground arith

  set_wait_time-send : (pcb : TcpPcb) → (set_wait_time env.now pcb).send_context ≡ pcb.send_context
  unfolding set_wait_time
  set_wait_time-send pcb = ground arith

  set_wait_time-IsLive : (pcb : TcpPcb) → IsLive pcb → IsLive (set_wait_time env.now pcb)
  set_wait_time-IsLive pcb h = rw (set_wait_time-state pcb, set_wait_time-send pcb) h

  pub check_ack-FlowLive :
      {s : TcpPcbState} (w : World)
      → IsReached s
      → AllLive w
      → Ensures FlowLive (check_ack env a pcb_id s w)
  unfolding check_ack ack_by_state
  check_ack-FlowLive w free h =
      search (live_rules, ack_syn_received-FlowLive, ack_connection-FlowLive, established) depth 12
  check_ack-FlowLive w _ h =
      search (live_rules, ack_syn_received-FlowLive, ack_connection-FlowLive, established) depth 12

  take_text-IsLive : (pcb : TcpPcb) → IsLive pcb → Ensures IsLive (take_text a pcb)
  unfolding take_text
  take_text-IsLive pcb h = search live_rules

  pub process_text-FlowLive :
      (s : TcpPcbState) (w : World) → AllLive w → Ensures FlowLive (process_text env a pcb_id s w)
  unfolding process_text
  process_text-FlowLive s w h =
      Ensures-if _
        (pcb_by_id_rule w.pcbs pcb_id h.each (λ pcb hp.
          pcb_rule (take_text-IsLive pcb hp) (λ pcb' hp'.
            world_rule (send_from-AllLive env pcb_id pcb' _ w h hp')
              (λ w' h'. Ensures-done (world-AllLive w'.pcbs w'.host _ h'.each)))))
        (Ensures-done h)

  woken-AllLive :
      (woken : Bool) (w : World) (sender : Option ℕ)
      → AllLive w
      → AllLive (if woken then wake_world w sender else w)
  woken-AllLive true w sender h = world-AllLive w.pcbs w.host _ h.each
  woken-AllLive false w sender h = h

  after_fin-IsLive :
      {s : TcpPcbState} (pcb : TcpPcb) → IsReached s → IsLive pcb → IsLive (after_fin env a s pcb)
  unfolding after_fin
  after_fin-IsLive pcb free h = h
  after_fin-IsLive pcb closed h = h
  after_fin-IsLive pcb listen h = h
  after_fin-IsLive pcb syn_sent h = h
  after_fin-IsLive pcb syn_received h = (close_wait, h.1)
  after_fin-IsLive pcb established h = (close_wait, h.1)
  after_fin-IsLive pcb close_wait h = h

  pub check_fin-FlowLive :
      {s : TcpPcbState} (w : World)
      → IsReached s
      → AllLive w
      → Ensures FlowLive (check_fin env a pcb_id s w)
  unfolding check_fin
  check_fin-FlowLive {s} w hs h =
      Ensures-if _
        (pcb_by_id_rule w.pcbs pcb_id h.each (λ pcb hp. Ensures-if _ (Ensures-done h) (
          Ensures-bind _ (λ next. world_rule (send_from-AllLive env pcb_id _ _ w h hp) (λ w' h'.
            pcb_by_id_rule w'.pcbs pcb_id h'.each (λ pcb' hp'. Ensures-done (
              woken-AllLive (wakes_on_fin s) _ _ (
                set-AllLive w'.pcbs pcb_id _ w'.host w'.channels h'.each
                  (after_fin-IsLive pcb' hs hp')))))))))
        (Ensures-done h)
