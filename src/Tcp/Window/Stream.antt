-- ===== src/Tcp/Window/Stream.antt =====
-- The buffer of a block of src/protocols/ip/tcp.rs as the stream that its reader sees.
use rust_user_net.Base.{
  ℕ, ◌≡◌, ◌≢◌, ◌∙◌, refl, sym, ap, List, [], ◌++◌, append_assoc, append-nil, Option, true, done,
  get_elem?, get_elem?-set_self, Ensures, Ensures-done, Ensures-returned,
}
use rust_user_net.Device.Types.{Env}
use rust_user_net.Tcp.Types.{TcpPcbState}
use rust_user_net.Tcp.World.{World, Arrival, Flow, world_of}
use rust_user_net.Tcp.Phases.{takes_text, process_text}
use rust_user_net.Tcp.Commands.{receive_take}
use rust_user_net.Tcp.Window.{receive_take-IsWindow}
use rust_user_net.Tcp.Window.Calls.{
  IsHolding, IsPlain, process_text-IsHolding, process_text_ne, receive_take_ne,
}

-- What happens to the table while one block takes text and is read: text arrives there, its reader
-- takes bytes, and both at other blocks. `posted` is the text that was taken for it, `taken` what its
-- reader got, in their order. Each step is a call that returned.
pub data History (pcb_id : ℕ) (start : World) : List ℕ → List ℕ → World → Type 0 where
  starts : History pcb_id start [] [] start
  arrives :
      (env : Env) (a : Arrival) (state : TcpPcbState) (f : Flow) {posted taken : List ℕ}
      {now : World}
      → History pcb_id start posted taken now
      → IsPlain a
      → takes_text state ≡ true
      → process_text env a pcb_id state now ≡ done f
      → History pcb_id start (posted ++ a.payload) taken (world_of f)
  reads :
      (size : ℕ) (remain : Option ℕ) (bytes : List ℕ) {posted taken : List ℕ} {now next : World}
      → History pcb_id start posted taken now
      → receive_take pcb_id size remain now ≡ done (bytes, next)
      → History pcb_id start posted (taken ++ bytes) next
  arrives_elsewhere :
      (env : Env) (a : Arrival) (other : ℕ) (state : TcpPcbState) (f : Flow) {posted taken : List ℕ}
      {now : World}
      → other ≢ pcb_id
      → History pcb_id start posted taken now
      → process_text env a other state now ≡ done f
      → History pcb_id start posted taken (world_of f)
  reads_elsewhere :
      (other size : ℕ) (remain : Option ℕ) (bytes : List ℕ) {posted taken : List ℕ}
      {now next : World}
      → other ≢ pcb_id
      → History pcb_id start posted taken now
      → receive_take other size remain now ≡ done (bytes, next)
      → History pcb_id start posted taken next

-- What stands in the buffer follows what was taken.
record IsStream (pcb_id : ℕ) (held posted taken : List ℕ) (w : World) : Type 0 where
  rest : List ℕ
  holding : IsHolding pcb_id rest w
  follows : held ++ posted ≡ taken ++ rest

IsHolding-same :
    {pcb_id : ℕ} {bytes : List ℕ} {w w' : World}
    → get_elem? w'.pcbs pcb_id ≡ get_elem? w.pcbs pcb_id
    → IsHolding pcb_id bytes w
    → IsHolding pcb_id bytes w'
IsHolding-same e h = record { pcb = h.pcb; there = e ∙ h.there; window = h.window; held = h.held }

receive_take-IsStream :
    (pcb_id size : ℕ) (remain : Option ℕ) (w : World) (held posted taken : List ℕ)
    → IsStream pcb_id held posted taken w
    → Ensures
        (λ r. IsStream pcb_id held posted (taken ++ r.0) r.1)
        (receive_take pcb_id size remain w)
receive_take-IsStream pcb_id size remain w held posted taken s =
    let h = s.holding in
    let (bytes, pcb', e, window, split, _) =
      receive_take-IsWindow pcb_id size remain w h.pcb h.there h.window in
    rw e (
      Ensures-done (record {
        rest = pcb'.buf;
        holding = record {
          pcb = pcb';
          there = get_elem?-set_self w.pcbs pcb_id pcb' h.pcb h.there;
          window = window;
          held = refl;
        };
        follows =
            s.follows
            ∙ ap (◌++◌ taken) (sym h.held ∙ sym split)
            ∙ sym (append_assoc taken bytes pcb'.buf);
      }))

History-IsStream :
    {pcb_id : ℕ} {start now : World} {posted taken : List ℕ} (held : List ℕ)
    → IsHolding pcb_id held start
    → History pcb_id start posted taken now
    → IsStream pcb_id held posted taken now
History-IsStream held h starts = record { rest = held; holding = h; follows = append-nil held }
History-IsStream {pcb_id} held h (arrives env a state f {posted} {taken} {now} l plain takes e) =
    let s = History-IsStream held h l in
    record {
      rest = s.rest ++ a.payload;
      holding =
          Ensures-returned f
            (process_text-IsHolding env a pcb_id state now s.rest takes plain s.holding) e;
      follows =
          sym (append_assoc held posted a.payload)
          ∙ ap (λ b. b ++ a.payload) s.follows
          ∙ append_assoc taken s.rest a.payload;
    }
History-IsStream {pcb_id} held h (reads size remain bytes {posted} {taken} {now} {next} l e) =
    Ensures-returned (bytes, next)
      (receive_take-IsStream pcb_id size remain now held posted taken (History-IsStream held h l)) e
History-IsStream {pcb_id} held h (arrives_elsewhere env a other state f {now} ne l e) =
    let s = History-IsStream held h l in
    record {
      rest = s.rest;
      holding =
          IsHolding-same (Ensures-returned f (process_text_ne env a other pcb_id state now ne) e)
            s.holding;
      follows = s.follows;
    }
History-IsStream {pcb_id} held h (reads_elsewhere other size remain bytes {now} {next} ne l e) =
    let s = History-IsStream held h l in
    record {
      rest = s.rest;
      holding =
          IsHolding-same
            (Ensures-returned (bytes, next) (receive_take_ne other pcb_id size remain now ne) e)
            s.holding;
      follows = s.follows;
    }

-- A block whose window is the room of its buffer, at the start and through any texts that it takes
-- from segments without options, of less than 65536 bytes, and any reads of it, among the same at
-- other blocks: it is there, its window is the room of its buffer, and what it held at first and the
-- texts are, in this order, what its reader got and what it holds.
pub History-IsHolding :
    {pcb_id : ℕ} {start now : World} {posted taken : List ℕ} (held : List ℕ)
    → IsHolding pcb_id held start
    → History pcb_id start posted taken now
    → (rest : List ℕ) × IsHolding pcb_id rest now × (held ++ posted ≡ taken ++ rest)
History-IsHolding held h l = let s = History-IsStream held h l in (s.rest, s.holding, s.follows)
