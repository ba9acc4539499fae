-- ===== src/Tcp/Window.antt =====
-- The receive window and the buffer of src/protocols/ip/tcp.rs.
pub mod Calls
pub mod Stream
use rust_user_net.Base.{
  ℕ, zero, suc, ◌+◌, ◌-◌, ◌%◌, ◌^◌, ◌≤◌, ◌<◌, ◌≡◌, refl, ap, List, [], ◌∷◌, ◌++◌, Option, none,
  some, true, length, length-append, take, drop, arith, leb, ltb, done, get_elem?, lt→ltb,
}
use rust_user_net.Tcp.Types.{TcpPcb}
use rust_user_net.Tcp.World.{World, Arrival, put_pcb}
use rust_user_net.Tcp.Phases.{take_text}
use rust_user_net.Tcp.Commands.{receive_len, receive_take}

-- The window is the room that the buffer has left.
abbrev pub IsWindow : TcpPcb → Type 0
IsWindow pcb = pcb.recv_context.window + length pcb.buf ≡ 65535

take-drop : (n : ℕ) (xs : List ℕ) → take n xs ++ drop n xs ≡ xs
take-drop zero xs = refl
take-drop (suc n) [] = refl
take-drop (suc n) (x ∷ xs) = ap (◌∷◌ x) (take-drop n xs)

length-drop_le : (n : ℕ) (xs : List ℕ) → n ≤ length xs → length (drop n xs) + n ≡ length xs
length-drop_le zero xs h = omega arith
length-drop_le (suc n) [] h = absurd (omega arith)
length-drop_le (suc n) (x ∷ xs) h = omega (arith, length-drop_le n xs (omega arith))

length-take_le : (n : ℕ) (xs : List ℕ) → length (take n xs) ≤ n
length-take_le zero xs = omega arith
length-take_le (suc n) [] = omega arith
length-take_le (suc n) (x ∷ xs) = omega (arith, length-take_le n xs)

receive_len-le_size :
    (pcb : TcpPcb) (size : ℕ) (remain : Option ℕ) → receive_len pcb size remain ≤ size
receive_len-le_size pcb size none = omega arith
receive_len-le_size pcb size (some remain) = omega arith

receive_len-le :
    (pcb : TcpPcb) (size : ℕ) (remain : Option ℕ) → receive_len pcb size remain ≤ length pcb.buf
receive_len-le pcb size none = omega arith
receive_len-le pcb size (some remain) = omega arith

-- A read of a block whose window is the room of its buffer returns: it gives the oldest bytes of the
-- buffer, no more than were asked for, what stays follows them, and the window is again the room.
pub receive_take-IsWindow :
    (pcb_id size : ℕ) (remain : Option ℕ) (w : World) (pcb : TcpPcb)
    → get_elem? w.pcbs pcb_id ≡ some pcb
    → IsWindow pcb
    → (taken : List ℕ) × (pcb' : TcpPcb) × (receive_take pcb_id size remain w
        ≡ done (taken, put_pcb w pcb_id pcb'))
      × IsWindow pcb'
      × (taken ++ pcb'.buf ≡ pcb.buf)
      × (length taken ≤ size)
unfolding receive_take
receive_take-IsWindow pcb_id size remain w pcb there room =
    let len = receive_len pcb size remain in
    let le : len ≤ length pcb.buf = receive_len-le pcb size remain in
    let small : len % 2 ^ 16 ≡ len = omega arith in
    let allowed : ltb (pcb.recv_context.window + len) (2 ^ 16) ≡ true =
      lt→ltb (pcb.recv_context.window + len) (2 ^ 16) (omega arith) in
    (
      take len pcb.buf,
      record pcb {
        buf = drop len pcb.buf;
        recv_context = record (pcb.recv_context) { window = pcb.recv_context.window + len };
      },
      rw (there, small, allowed) refl,
      omega (arith, length-drop_le len pcb.buf le),
      take-drop len pcb.buf,
      omega (arith, length-take_le len pcb.buf, receive_len-le_size pcb size remain),
    )
