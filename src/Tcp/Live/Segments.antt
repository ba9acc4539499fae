-- ===== src/Tcp/Live/Segments.antt =====
-- `segment_arrives` and `input`: the states that the blocks are in after a segment.
use rust_user_net.Base.{
  ℕ, ◌+◌, ◌≤◌, ◌≡◌, refl, ◌&&◌, arith, List, [], ◌∷◌, Option, none, some, Bool, true, false, Run,
  unwrap, ◌>>=◌, All, Ensures, Ensures-done, Ensures-bind, Ensures-then, Ensures-if, Option-cases,
  inl, inr, if◌then◌else◌,
}
use native.Mathlib.Nat.{le_refl}
use rust_user_net.Device.Types.{Env}
use rust_user_net.Ip.Route.{IpInterface}
use rust_user_net.Tcp.Types.{TcpPcb, TcpPcbState, state_eq, add_u32}
use rust_user_net.Tcp.Pcbs.{new_entry, new_entry_from, select, clean_data_queue}
use rust_user_net.Tcp.World.{World, Arrival, Flow}
use rust_user_net.Tcp.Early.{
  accepting, ack_in_flight, arrives_closed, arrives_listen, arrives_syn_sent, syn_sent_syn,
}
use rust_user_net.Tcp.Arrives.{arrives_connection, arrives_at, segment_arrives, input}
use rust_user_net.Tcp.Live.{
  IsReached, IsLive, AllLive, pcb_by_id_rule, output_rule, world_rule, set-AllLive, free, closed,
  listen, syn_sent, syn_received, established, close_wait, reply-AllLive, send_from-AllLive,
  sum_rule,
}
use rust_user_net.Tcp.Live.Phases.{
  FlowLive, and_then-FlowLive, live_rules, check_sequence-FlowLive, check_rst-FlowLive,
  check_syn-FlowLive, check_ack-FlowLive, process_text-FlowLive, check_fin-FlowLive,
}

-- The blocks after one was taken, if one was.
IsTakenLive : Option (ℕ × List TcpPcb) → Type 0
IsTakenLive none = Unit
IsTakenLive (some r) = All IsLive r.1

if-IsTakenLive :
    (b : Bool) (x y : Option (ℕ × List TcpPcb))
    → IsTakenLive x
    → IsTakenLive y
    → IsTakenLive (if b then x else y)
if-IsTakenLive true x y hx hy = hx
if-IsTakenLive false x y hx hy = hy

after-IsTakenLive :
    (pcb : TcpPcb) (o : Option (ℕ × List TcpPcb))
    → IsLive pcb
    → IsTakenLive o
    → IsTakenLive (elim o [ none ↦ none | some (j, pcbs) ↦ some (j, pcb ∷ pcbs) ])
unfolding IsTakenLive
after-IsTakenLive pcb none h ho = tt
after-IsTakenLive pcb (some (j, pcbs)) h ho = (h, ho)

new_entry_from-IsTakenLive :
    (i : ℕ) (pcbs : List TcpPcb) → All IsLive pcbs → IsTakenLive (new_entry_from i pcbs)
unfolding IsTakenLive new_entry_from
new_entry_from-IsTakenLive i [] h = tt
new_entry_from-IsTakenLive i (pcb ∷ pcbs) h =
    if-IsTakenLive (state_eq pcb.state TcpPcbState.free) _ _ ((closed, h.0.1), h.1)
      (after-IsTakenLive pcb _ h.0 (new_entry_from-IsTakenLive (i + 1) pcbs h.1))

unwrap-Ensures :
    (o : Option (ℕ × List TcpPcb)) → IsTakenLive o → Ensures (λ r. All IsLive r.1) (unwrap o)
unfolding IsTakenLive
unwrap-Ensures none h = record { holds = tt }
unwrap-Ensures (some r) h = record { holds = h }

-- The block that `new_entry` takes is closed, and the others stay as they are.
pub new_entry_rule :
    {B : Type 0} {P : B → Type 0} {f : ℕ × List TcpPcb → Run B} (pcbs : List TcpPcb)
    → All IsLive pcbs
    → ((r : ℕ × List TcpPcb) → All IsLive r.1 → Ensures P (f r))
    → Ensures P (unwrap (new_entry pcbs) >>= f)
unfolding new_entry
new_entry_rule pcbs h hf =
    Ensures-then (unwrap (new_entry pcbs)) (unwrap-Ensures _ (new_entry_from-IsTakenLive 0 pcbs h))
      hf

module _ (env : Env) (a : Arrival) where
  arrives_closed-AllLive : (w : World) → AllLive w → Ensures AllLive (arrives_closed env a w)
  unfolding arrives_closed
  arrives_closed-AllLive w h = search live_rules

  accepting-AllLive :
      (w : World) (pcb_id : ℕ) (pcb : TcpPcb)
      → AllLive w
      → Ensures (λ r. All IsLive r.2) (accepting w pcb_id pcb)
  unfolding accepting
  accepting-AllLive w pcb_id pcb h =
      Ensures-if _
        (new_entry_rule w.pcbs h.each (λ r hr. Ensures-bind _ (λ new_pcb. Ensures-done hr)))
        (Ensures-done h.each)

  arrives_listen-AllLive :
      (pcb_id : ℕ) (pcb : TcpPcb) (w : World)
      → AllLive w
      → Ensures AllLive (arrives_listen env a pcb_id pcb w)
  unfolding arrives_listen
  arrives_listen-AllLive pcb_id pcb w h = Ensures-if _ (Ensures-done h) (
      Ensures-if _ (reply-AllLive env a _ _ _ w h) (
        Ensures-if _
          (Ensures-then _ (accepting-AllLive w pcb_id pcb h) (λ r hr.
            search (sum_rule, le_refl, Ensures-bind, Ensures-done, set-AllLive, syn_received) depth
              14))
          (Ensures-done h)))

  syn_sent_syn-AllLive :
      (pcb_id : ℕ) (pcb : TcpPcb) (b : Bool) (w : World)
      → (b ≡ true → a.seg.ack_num ≤ pcb.send_context.next)
      → IsLive pcb
      → AllLive w
      → Ensures AllLive (syn_sent_syn env a pcb_id pcb b w)
  unfolding syn_sent_syn clean_data_queue
  syn_sent_syn-AllLive pcb_id pcb true w le hp h =
      Ensures-bind (add_u32 a.seg.seq_num 1) (λ recv_next.
        Ensures-if _
          (output_rule env _ _ _ w.host (established, le refl)
            (λ r hr. Ensures-done (set-AllLive w.pcbs pcb_id _ r.2 _ h.each hr)))
          (send_from-AllLive env pcb_id _ _ w h (syn_received, le refl)))
  syn_sent_syn-AllLive pcb_id pcb false w le hp h =
      Ensures-bind (add_u32 a.seg.seq_num 1) (λ recv_next.
        Ensures-if _
          (output_rule env _ _ _ w.host (established, hp.1)
            (λ r hr. Ensures-done (set-AllLive w.pcbs pcb_id _ r.2 _ h.each hr)))
          (send_from-AllLive env pcb_id _ _ w h (syn_received, hp.1)))

  syn_sent_in_flight :
      (pcb_id : ℕ) (pcb : TcpPcb) (b : Bool) (w : World)
      → IsLive pcb
      → AllLive w
      → Ensures AllLive (syn_sent_syn env a pcb_id pcb (b && ack_in_flight a pcb) w)
  syn_sent_in_flight pcb_id pcb b w hp h =
      syn_sent_syn-AllLive pcb_id pcb (b && ack_in_flight a pcb) w (λ e. ground arith) hp h

  arrives_syn_sent-AllLive :
      (pcb_id : ℕ) (pcb : TcpPcb) (w : World)
      → IsLive pcb
      → AllLive w
      → Ensures AllLive (arrives_syn_sent env a pcb_id pcb w)
  unfolding arrives_syn_sent
  arrives_syn_sent-AllLive pcb_id pcb w hp h = search (live_rules, syn_sent_in_flight)

  flow_rule :
      {B : Type 0} {P : B → Type 0} {f : Flow → Run B} {m : Run Flow}
      → Ensures FlowLive m
      → ((r : Flow) → FlowLive r → Ensures P (f r))
      → Ensures P (m >>= f)
  flow_rule {m} h hf = Ensures-then m h hf

  arrives_connection-AllLive :
      (pcb_id : ℕ) (s : TcpPcbState) (w : World)
      → IsReached s
      → AllLive w
      → Ensures AllLive (arrives_connection env a pcb_id s w)
  unfolding arrives_connection
  arrives_connection-AllLive pcb_id s w hs h =
      flow_rule (check_sequence-FlowLive env a pcb_id s w h) (λ f₁ h₁.
        flow_rule (and_then-FlowLive f₁ _ h₁ (λ w₁. check_rst-FlowLive env a pcb_id w₁ hs))
          (λ f₂ h₂.
            flow_rule (and_then-FlowLive f₂ _ h₂ (check_syn-FlowLive env a pcb_id s)) (λ f₃ h₃.
              flow_rule (and_then-FlowLive f₃ _ h₃ (λ w₃. check_ack-FlowLive env a pcb_id w₃ hs))
                (λ f₄ h₄.
                  flow_rule (and_then-FlowLive f₄ _ h₄ (process_text-FlowLive env a pcb_id s))
                    (λ f₅ h₅.
                      flow_rule
                        (and_then-FlowLive f₅ _ h₅ (λ w₅. check_fin-FlowLive env a pcb_id w₅ hs))
                        (λ f₆ h₆. Ensures-done h₆))))))

  arrives_at-AllLive :
      (pcb_id : ℕ) (pcb : TcpPcb) {s : TcpPcbState} (w : World)
      → IsReached s
      → IsLive pcb
      → AllLive w
      → Ensures AllLive (arrives_at env a pcb_id pcb s w)
  unfolding arrives_at
  arrives_at-AllLive pcb_id pcb w closed hp h = arrives_closed-AllLive w h
  arrives_at-AllLive pcb_id pcb w listen hp h = arrives_listen-AllLive pcb_id pcb w h
  arrives_at-AllLive pcb_id pcb w syn_sent hp h = arrives_syn_sent-AllLive pcb_id pcb w hp h
  arrives_at-AllLive pcb_id pcb w free hp h = arrives_connection-AllLive pcb_id _ w free h
  arrives_at-AllLive pcb_id pcb w syn_received hp h =
      arrives_connection-AllLive pcb_id _ w syn_received h
  arrives_at-AllLive pcb_id pcb w established hp h =
      arrives_connection-AllLive pcb_id _ w established h
  arrives_at-AllLive pcb_id pcb w close_wait hp h =
      arrives_connection-AllLive pcb_id _ w close_wait h

  pub segment_arrives-AllLive : (w : World) → AllLive w → Ensures AllLive (segment_arrives env a w)
  unfolding segment_arrives
  segment_arrives-AllLive w h = elim (Option-cases (select w.pcbs a.local (some a.remote))) [
    | inl e ↦ rw (e, segment_arrives) (arrives_closed-AllLive w h)
    | inr (pcb_id, e) ↦
        rw (e, segment_arrives)
          (pcb_by_id_rule w.pcbs pcb_id h.each
            (λ pcb hp. arrives_at-AllLive pcb_id pcb w hp.0 hp h))
  ]

pub input-AllLive :
    (env : Env) (bytes : List ℕ) (len src dst : ℕ) (iface : IpInterface) (random : ℕ) (w : World)
    → AllLive w
    → Ensures (λ r. AllLive r.1) (input env bytes len src dst iface random w)
unfolding input
input-AllLive env bytes len src dst iface random w h =
    search (Ensures-bind, Ensures-if, Ensures-done, world_rule, segment_arrives-AllLive) depth 14
