-- ===== src/Tcp/Window/Calls.antt =====
-- What taking text and reading do to the buffer of a block of src/protocols/ip/tcp.rs.
use rust_user_net.Base.{
  ℕ, ◌%◌, ◌^◌, ◌≤◌, ◌<◌, ◌≡◌, ◌≢◌, ◌∙◌, refl, sym, ap, List, [], ◌∷◌, ◌++◌, append-nil, Option,
  some, true, false, ◌&&◌, done, leb, ltb, length, length-append, arith, get_elem?, set,
  get_elem?-set_self, get_elem?-set_ne, Ensures, Ensures-done, Ensures-bind, Ensures-then,
  Ensures-check, Ensures-test,
}
use rust_user_net.Device.Types.{Env}
use rust_user_net.Context.{Host}
use rust_user_net.Tcp.Types.{TcpPcb, TcpPcbState, tcp_flag_exists}
use rust_user_net.Tcp.Pcbs.{pcb_by_id}
use rust_user_net.Tcp.Segment.{output, output_segment, queued}
use rust_user_net.Tcp.World.{World, Arrival, world_of, put_pcb, send_from}
use rust_user_net.Tcp.Phases.{take_text, takes_text, process_text}
use rust_user_net.Tcp.Commands.{receive_take}
use rust_user_net.Tcp.Window.{IsWindow}

-- The block holds these bytes, and its window is the room that is left.
pub record IsHolding (pcb_id : ℕ) (bytes : List ℕ) (w : World) : Type 0 where
  pub pcb : TcpPcb
  pub there : get_elem? w.pcbs pcb_id ≡ some pcb
  pub window : IsWindow pcb
  pub held : pcb.buf ≡ bytes

-- A segment whose header has no options, so that `data` is what its length says.
pub record IsPlain (a : Arrival) : Type 0 where
  pub measured : a.len ≡ length a.payload
  pub small : a.len < 2 ^ 16

take_text-Holds :
    (a : Arrival) (pcb : TcpPcb)
    → IsWindow pcb
    → IsPlain a
    → Ensures (λ pcb'. IsWindow pcb' × (pcb'.buf ≡ pcb.buf ++ a.payload)) (take_text a pcb)
unfolding take_text
take_text-Holds a pcb room plain =
    let small : a.len % 2 ^ 16 ≡ a.len = omega (arith, plain.small) in
    Ensures-bind _ (λ next. Ensures-check (leb (a.len % 2 ^ 16) pcb.recv_context.window) (λ fits.
      Ensures-done (
        omega (arith, small, kept fits, room, plain.measured, length-append pcb.buf a.payload),
        refl,
      )))
  where
    kept :
        leb (a.len % 2 ^ 16) pcb.recv_context.window ≡ true
        → a.len % 2 ^ 16 ≤ pcb.recv_context.window
    kept fits = ground arith

nothing : (bytes : List ℕ) {xs : List ℕ} → xs ≡ [] → bytes ++ xs ≡ bytes
nothing bytes e = ap (◌++◌ bytes) e ∙ append-nil bytes

-- An acknowledgement queues nothing.
output-ack :
    (env : Env) (pcb : TcpPcb) (host : Host)
    → Ensures (λ r. r.1 ≡ pcb) (output env pcb 0x10 [] host)
unfolding output queued tcp_flag_exists
output-ack env pcb host =
    Ensures-bind
      (output_segment env pcb.send_context.next pcb.recv_context.next 0x10 pcb.recv_context.window
        [] pcb.local pcb.remote host)
      (λ r. Ensures-done refl)

send_from-ack :
    (env : Env) (pcb_id : ℕ) (pcb old : TcpPcb) (w : World)
    → get_elem? w.pcbs pcb_id ≡ some old
    → Ensures (λ w'. get_elem? w'.pcbs pcb_id ≡ some pcb) (send_from env pcb_id pcb 0x10 w)
unfolding send_from
send_from-ack env pcb_id pcb old w there =
    Ensures-then (output env pcb 0x10 [] w.host) (output-ack env pcb w.host) (λ r e. Ensures-done (
      ap (λ p. get_elem? (set w.pcbs pcb_id p) pcb_id) e
      ∙ get_elem?-set_self w.pcbs pcb_id pcb old there))

pub process_text-IsHolding :
    (env : Env) (a : Arrival) (pcb_id : ℕ) (state : TcpPcbState) (w : World) (bytes : List ℕ)
    → takes_text state ≡ true
    → IsPlain a
    → IsHolding pcb_id bytes w
    → Ensures
        (λ f. IsHolding pcb_id (bytes ++ a.payload) (world_of f))
        (process_text env a pcb_id state w)
unfolding process_text
process_text-IsHolding env a pcb_id state w bytes takes plain h = rw takes (
    Ensures-test (ltb 0 a.len)
      (λ some_text. rw h.there (
        Ensures-then (take_text a h.pcb) (take_text-Holds a h.pcb h.window plain) (λ pcb' t.
          Ensures-then (send_from env pcb_id pcb' 0x10 w)
            (send_from-ack env pcb_id pcb' h.pcb w h.there)
            (λ w' there'. Ensures-done (record {
              pcb = pcb';
              there = there';
              window = t.0;
              held = t.1 ∙ ap (λ b. b ++ a.payload) h.held;
            })))))
      (λ no_text. Ensures-done (record {
        pcb = h.pcb;
        there = h.there;
        window = h.window;
        held = h.held ∙ sym (nothing bytes (empty a.payload (none_left no_text)));
      })))
  where
    none_left : ltb 0 a.len ≡ false → length a.payload ≡ 0
    none_left no_text = let len = plain.measured in ground arith

    empty : (xs : List ℕ) → length xs ≡ 0 → xs ≡ []
    empty [] e = refl
    empty (x ∷ xs) e = absurd (omega arith)

send_from_ne :
    (env : Env) (other pcb_id : ℕ) (pcb : TcpPcb) (w : World)
    → other ≢ pcb_id
    → Ensures
        (λ w'. get_elem? w'.pcbs pcb_id ≡ get_elem? w.pcbs pcb_id)
        (send_from env other pcb 0x10 w)
unfolding send_from
send_from_ne env other pcb_id pcb w ne =
    Ensures-bind (output env pcb 0x10 [] w.host)
      (λ r. Ensures-done (get_elem?-set_ne w.pcbs other pcb_id r.1 ne))

pub process_text_ne :
    (env : Env) (a : Arrival) (other pcb_id : ℕ) (state : TcpPcbState) (w : World)
    → other ≢ pcb_id
    → Ensures
        (λ f. get_elem? (world_of f).pcbs pcb_id ≡ get_elem? w.pcbs pcb_id)
        (process_text env a other state w)
unfolding process_text
process_text_ne env a other pcb_id state w ne =
    Ensures-test (takes_text state && ltb 0 a.len)
      (λ some_text. Ensures-bind (pcb_by_id w.pcbs other) (λ pcb.
        Ensures-bind (take_text a pcb) (λ pcb'.
          Ensures-then (send_from env other pcb' 0x10 w) (send_from_ne env other pcb_id pcb' w ne)
            (λ w' e. Ensures-done e))))
      (λ no_text. Ensures-done refl)

-- What is put at one place is not seen at another.
put_ne :
    (bytes : List ℕ) (other pcb_id : ℕ) (pcb : TcpPcb) (w : World)
    → other ≢ pcb_id
    → Ensures {A = List ℕ × World}
        (λ r. get_elem? (r.1).pcbs pcb_id ≡ get_elem? w.pcbs pcb_id)
        (done (bytes, put_pcb w other pcb))
put_ne bytes other pcb_id pcb w ne = Ensures-done (get_elem?-set_ne w.pcbs other pcb_id pcb ne)

pub receive_take_ne :
    (other pcb_id size : ℕ) (remain : Option ℕ) (w : World)
    → other ≢ pcb_id
    → Ensures
        (λ r. get_elem? (r.1).pcbs pcb_id ≡ get_elem? w.pcbs pcb_id)
        (receive_take other size remain w)
unfolding receive_take
receive_take_ne other pcb_id size remain w ne = search (Ensures-bind, put_ne, ne) depth 8
