-- ===== src/Tcp/Live.antt =====
-- The states that a control block of src/protocols/ip/tcp.rs can be in: those of a connection that
-- is closed from this end are never entered.
pub mod Phases
pub mod Segments
pub mod Calls
use rust_user_net.Base.{
  ℕ, ◌≤◌, ◌≡◌, refl, ap, List, [], ◌∷◌, Option, none, some, Run, done, ◌>>=◌, unwrap, get_elem?,
  set, All, All-set, All-get_elem?, Ensures, Ensures-done, Ensures-bind, Ensures-then, Ensures-if,
  Ensures-panic, Bool, true, false, ltb, ◌+◌, ◌^◌, ◌>>◌, check, Option-cases, inl, inr,
  if◌then◌else◌, arith,
}
use rust_user_net.Channel.{Channels}
use rust_user_net.Device.Types.{Env}
use rust_user_net.Context.{Host}
use rust_user_net.Tcp.Types.{TcpPcb, TcpPcbState, add_u32}
use rust_user_net.Tcp.Pcbs.{pcb_by_id, release, add_data_queue, clean_data_queue, set_wait_time}
use rust_user_net.Tcp.Segment.{output, output_segment, queued}
use rust_user_net.Tcp.World.{World, Arrival, reply, send_from, release_at}

pub data IsReached : TcpPcbState → Type 0 where
  free : IsReached TcpPcbState.free
  closed : IsReached TcpPcbState.closed
  listen : IsReached TcpPcbState.listen
  syn_sent : IsReached TcpPcbState.syn_sent
  syn_received : IsReached TcpPcbState.syn_received
  established : IsReached TcpPcbState.established
  close_wait : IsReached TcpPcbState.close_wait

-- The state is one of these, and no more is acknowledged than was sent.
abbrev pub IsLive : TcpPcb → Type 0
IsLive pcb = IsReached pcb.state × (pcb.send_context.una ≤ pcb.send_context.next)

pub record AllLive (w : World) : Type 0 where
  pub each : All IsLive w.pcbs

pub pcb_by_id-IsLive :
    (pcbs : List TcpPcb) (pcb_id : ℕ) → All IsLive pcbs → Ensures IsLive (pcb_by_id pcbs pcb_id)
pcb_by_id-IsLive pcbs pcb_id h = elim (Option-cases (get_elem? pcbs pcb_id)) [
  | inl e ↦ rw e (record { holds = tt })
  | inr (pcb, e) ↦ rw e (record { holds = All-get_elem? IsLive pcbs pcb_id pcb h e })
]

-- A block is written back, and the rest of the world changes in any way.
pub set-AllLive :
    (pcbs : List TcpPcb) (pcb_id : ℕ) (pcb : TcpPcb) (host : Host) (channels : Channels)
    → All IsLive pcbs
    → IsLive pcb
    → AllLive (record { host = host; pcbs = set pcbs pcb_id pcb; channels = channels })
set-AllLive pcbs pcb_id pcb host channels h hp = record {
  each = All-set IsLive pcbs pcb_id pcb h hp;
}

pub world-AllLive :
    (pcbs : List TcpPcb) (host : Host) (channels : Channels)
    → All IsLive pcbs
    → AllLive (record { host = host; pcbs = pcbs; channels = channels })
world-AllLive pcbs host channels h = record { each = h }

queued-state :
    (env : Env) (pcb : TcpPcb) (flags : ℕ) (payload : List ℕ)
    → (queued env pcb flags payload).state ≡ pcb.state
unfolding queued add_data_queue
queued-state env pcb flags payload = ground arith

queued-send_context :
    (env : Env) (pcb : TcpPcb) (flags : ℕ) (payload : List ℕ)
    → (queued env pcb flags payload).send_context ≡ pcb.send_context
unfolding queued add_data_queue
queued-send_context env pcb flags payload = ground arith

-- What is sent leaves the state of its block alone.
pub output-state :
    (env : Env) (pcb : TcpPcb) (flags : ℕ) (payload : List ℕ) (host : Host)
    → Ensures (λ r. r.1.state ≡ pcb.state) (output env pcb flags payload host)
unfolding output
output-state env pcb flags payload host =
    Ensures-bind _ (λ r. Ensures-done (queued-state env pcb flags payload))

pub output-IsLive :
    (env : Env) (pcb : TcpPcb) (flags : ℕ) (payload : List ℕ) (host : Host)
    → IsLive pcb
    → Ensures (λ r. IsLive r.1) (output env pcb flags payload host)
unfolding output
output-IsLive env pcb flags payload host h = Ensures-bind _ (λ r.
    Ensures-done
      (rw (queued-state env pcb flags payload, queued-send_context env pcb flags payload) h))

pub reply-AllLive :
    (env : Env) (a : Arrival) (seq_num ack_num flags : ℕ) (w : World)
    → AllLive w
    → Ensures AllLive (reply env a seq_num ack_num flags w)
unfolding reply
reply-AllLive env a seq_num ack_num flags w h =
    Ensures-bind _ (λ r. Ensures-done (world-AllLive w.pcbs r.1 w.channels h.each))

pub send_from-AllLive :
    (env : Env) (pcb_id : ℕ) (pcb : TcpPcb) (flags : ℕ) (w : World)
    → AllLive w
    → IsLive pcb
    → Ensures AllLive (send_from env pcb_id pcb flags w)
unfolding send_from
send_from-AllLive env pcb_id pcb flags w h hp =
    Ensures-then _ (output-IsLive env pcb flags [] w.host hp)
      (λ r hr. Ensures-done (set-AllLive w.pcbs pcb_id r.1 r.2 w.channels h.each hr))

pub release_at-AllLive :
    (pcb_id : ℕ) (w : World) → AllLive w → Ensures AllLive (release_at pcb_id w)
unfolding release_at release
release_at-AllLive pcb_id w h =
    Ensures-then (pcb_by_id w.pcbs pcb_id) (pcb_by_id-IsLive w.pcbs pcb_id h.each)
      (λ pcb hp. Ensures-done (set-AllLive w.pcbs pcb_id _ _ _ h.each (free, hp.1)))

-- The rules for a call whose result is used: what is known of it, for each kind of result.
module _ {ℓ} {B : Type ℓ} {P : B → Type 0} where
  pub pcb_by_id_rule :
      {f : TcpPcb → Run B} (pcbs : List TcpPcb) (pcb_id : ℕ)
      → All IsLive pcbs
      → ((pcb : TcpPcb) → IsLive pcb → Ensures P (f pcb))
      → Ensures P (pcb_by_id pcbs pcb_id >>= f)
  pcb_by_id_rule pcbs pcb_id h hf =
      Ensures-then (pcb_by_id pcbs pcb_id) (pcb_by_id-IsLive pcbs pcb_id h) hf

  pub output_rule :
      {f : ℕ × TcpPcb × Host → Run B} (env : Env) (pcb : TcpPcb) (flags : ℕ) (payload : List ℕ)
      (host : Host)
      → IsLive pcb
      → ((r : ℕ × TcpPcb × Host) → IsLive r.1 → Ensures P (f r))
      → Ensures P (output env pcb flags payload host >>= f)
  output_rule env pcb flags payload host h hf =
      Ensures-then (output env pcb flags payload host) (output-IsLive env pcb flags payload host h)
        hf

  pub world_rule :
      {f : World → Run B} {m : Run World}
      → Ensures AllLive m
      → ((w : World) → AllLive w → Ensures P (f w))
      → Ensures P (m >>= f)
  world_rule {m} h hf = Ensures-then m h hf

  pub pcb_rule :
      {f : TcpPcb → Run B} {m : Run TcpPcb}
      → Ensures IsLive m
      → ((pcb : TcpPcb) → IsLive pcb → Ensures P (f pcb))
      → Ensures P (m >>= f)
  pcb_rule {m} h hf = Ensures-then m h hf

  -- The same with the two facts apart, as `search` takes them.
  pub found_rule :
      {f : TcpPcb → Run B} (pcbs : List TcpPcb) (pcb_id : ℕ)
      → All IsLive pcbs
      → ((pcb : TcpPcb)
          → IsReached pcb.state
          → pcb.send_context.una ≤ pcb.send_context.next
          → Ensures P (f pcb))
      → Ensures P (pcb_by_id pcbs pcb_id >>= f)
  found_rule pcbs pcb_id h hf = pcb_by_id_rule pcbs pcb_id h (λ pcb hp. hf pcb hp.0 hp.1)

  pub sent_rule :
      {f : ℕ × TcpPcb × Host → Run B} (env : Env) (pcb : TcpPcb) (flags : ℕ) (payload : List ℕ)
      (host : Host)
      → IsLive pcb
      → ((r : ℕ × TcpPcb × Host)
          → IsReached r.1.state
          → r.1.send_context.una ≤ r.1.send_context.next
          → Ensures P (f r))
      → Ensures P (output env pcb flags payload host >>= f)
  sent_rule env pcb flags payload host h hf =
      output_rule env pcb flags payload host h (λ r hr. hf r hr.0 hr.1)

  -- A checked sum is not below what is added to, nor what that is not below.
  pub sum_rule :
      {f : ℕ → Run B} (x y : ℕ)
      → ((z : ℕ) → ((u : ℕ) → u ≤ x → u ≤ z) → Ensures P (f z))
      → Ensures P (add_u32 x y >>= f)
  sum_rule {f} x y hf = checked (ltb (x + y) (2 ^ 32))
    where
      checked : (b : Bool) → Ensures P ((check b >> done (x + y)) >>= f)
      checked true = hf (x + y) (λ u h. omega arith)
      checked false = Ensures-panic
