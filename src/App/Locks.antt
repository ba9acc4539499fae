-- ===== src/App/Locks.antt =====
-- The locks of `NetApp` of src/app.rs: the order in which each call of src/app.rs,
-- src/protocols/ip/tcp.rs and src/protocols/ip/udp.rs takes and gives them, and threads that make such
-- calls. Guards are dropped at the end of their block, the last one first.
pub mod Progress
pub mod Crossing
use rust_user_net.Base.{
  ℕ, zero, suc, ◌≡◌, List, [], ◌∷◌, Bool, true, false, ◌||◌, get_elem?, set, replicate, some, All,
  if◌then◌else◌,
}

pub data Lock : Type 0 where
  devices protocols contexts pcbs : Lock

-- What a thread does with the locks: it takes one, gives one back, or waits for a message.
pub data Action : Type 0 where
  takes gives : Lock → Action
  waits : Action

-- A piece of code, as what it puts before the actions behind it.
abbrev pub Code : Type 0
Code = List Action → List Action

abbrev pub skip : Code
skip rest = rest

abbrev pub wait : Code
wait rest = waits ∷ rest

-- A block that takes locks, in this order, and runs with them.
abbrev pub locked : List Lock → Code → Code
locked [] body rest = body rest
locked (lock ∷ locks) body rest = takes lock ∷ locked locks body (gives lock ∷ rest)

abbrev pub repeat : ℕ → Code → Code
repeat zero body rest = rest
repeat (suc n) body rest = body (repeat n body rest)

-- A block that takes the lock of the control blocks alone.
abbrev pub on_pcbs : Code
on_pcbs = locked (Lock.pcbs ∷ []) skip

-- `NetApp::handle_protocol`, `NetApp::handle_irq` and `NetApp::close_sockets`.
abbrev pub handle_protocol_locks : Code
handle_protocol_locks = locked (Lock.devices ∷ Lock.protocols ∷ Lock.contexts ∷ Lock.pcbs ∷ []) skip

abbrev pub handle_irq_locks : Code
handle_irq_locks = locked (Lock.devices ∷ Lock.protocols ∷ []) skip

abbrev pub close_sockets_locks : Code
close_sockets_locks = on_pcbs

-- A pass of `tcp_transmit_thread`.
abbrev pub transmit_locks : Code
transmit_locks = locked (Lock.pcbs ∷ Lock.devices ∷ Lock.contexts ∷ []) skip

-- The open and the send of the UDP commands, and `udp::receive_from`, which ends at a message to end.
abbrev pub udp_open_locks : Code
udp_open_locks = on_pcbs

abbrev pub udp_send_locks : Code
udp_send_locks = locked (Lock.devices ∷ Lock.contexts ∷ Lock.pcbs ∷ []) skip

abbrev pub udp_receive_locks : Bool → Code
udp_receive_locks proceed rest = on_pcbs (wait (if proceed then on_pcbs rest else rest))

-- How `tcp::receive` ends: it takes data, is told to end, or finds a state with nothing to receive.
pub data ReceiveEnd : Type 0 where
  taken stopped refused : ReceiveEnd

abbrev pub receive_end : ReceiveEnd → Code
receive_end ReceiveEnd.taken = on_pcbs
receive_end ReceiveEnd.stopped = wait
receive_end ReceiveEnd.refused = skip

-- `tcp::receive`, with the number of messages that wake it.
abbrev pub tcp_receive_locks : ℕ → ReceiveEnd → Code
tcp_receive_locks woken end rest =
    on_pcbs (repeat woken (λ more. wait (on_pcbs more)) (receive_end end rest))

-- `tcp::rfc793_open`, with the messages that wake it.
abbrev pub rfc793_open_locks : ℕ → Code
rfc793_open_locks woken rest =
    locked (Lock.pcbs ∷ Lock.devices ∷ Lock.contexts ∷ []) skip
      (repeat woken (λ more. wait (on_pcbs more)) rest)

-- The rounds of `tcp::send`: each reads the block and sends segments, and all but the last then wait
-- for a message. The last one does so when the message is one to end.
abbrev pub send_rounds : ℕ → List ℕ → Bool → Code
send_rounds segments [] told rest =
    on_pcbs (repeat segments on_pcbs (if told then wait rest else rest))
send_rounds segments (more ∷ rounds) told rest =
    on_pcbs (repeat segments on_pcbs (wait (send_rounds more rounds told rest)))

-- The send of `tcp_send_command`, under two locks.
abbrev pub tcp_send_locks : ℕ → List ℕ → Bool → Code
tcp_send_locks segments rounds told =
    locked (Lock.devices ∷ Lock.contexts ∷ [])
      (λ rest. on_pcbs (send_rounds segments rounds told rest))

-- The calls that take the locks in the order devices, protocols, contexts, control blocks, and wait
-- with none of them.
pub data IsOrderly : List Action → Type 0 where
  protocol : IsOrderly (handle_protocol_locks [])
  irq : IsOrderly (handle_irq_locks [])
  closing : IsOrderly (close_sockets_locks [])
  udp_open : IsOrderly (udp_open_locks [])
  udp_send : IsOrderly (udp_send_locks [])
  udp_receive : (proceed : Bool) → IsOrderly (udp_receive_locks proceed [])
  tcp_receive : (woken : ℕ) (end : ReceiveEnd) → IsOrderly (tcp_receive_locks woken end [])

-- All calls of the program.
pub data IsCall : List Action → Type 0 where
  orderly : {todo : List Action} → IsOrderly todo → IsCall todo
  transmit : IsCall (transmit_locks [])
  tcp_open : (woken : ℕ) → IsCall (rfc793_open_locks woken [])
  tcp_send :
      (segments : ℕ) (rounds : List ℕ) (told : Bool)
      → IsCall (tcp_send_locks segments rounds told [])

-- A thread: the locks that it has, the last one first, and what its call has left to do.
pub record Thread : Type 0 where
  pub held : List Lock
  pub todo : List Action

abbrev pub idle : Thread
idle = record { held = []; todo = [] }

abbrev pub lock_eq : Lock → Lock → Bool
lock_eq Lock.devices Lock.devices = true
lock_eq Lock.protocols Lock.protocols = true
lock_eq Lock.contexts Lock.contexts = true
lock_eq Lock.pcbs Lock.pcbs = true
lock_eq _ _ = false

abbrev pub holds : Lock → List Lock → Bool
holds lock [] = false
holds lock (other ∷ locks) = lock_eq lock other || holds lock locks

abbrev pub IsFree : Lock → List Thread → Type 0
IsFree lock threads = All (λ thread. holds lock thread.held ≡ false) threads

-- A thread takes a lock that no thread has, or gives its last one back.
pub data Works (threads : List Thread) : List Thread → Type 0 where
  takes :
      (i : ℕ) (thread : Thread) (lock : Lock) (rest : List Action)
      → get_elem? threads i ≡ some thread
      → thread.todo ≡ Action.takes lock ∷ rest
      → IsFree lock threads
      → Works threads (set threads i (record { held = lock ∷ thread.held; todo = rest }))
  gives :
      (i : ℕ) (thread : Thread) (lock : Lock) (held : List Lock) (rest : List Action)
      → get_elem? threads i ≡ some thread
      → thread.todo ≡ Action.gives lock ∷ rest
      → thread.held ≡ lock ∷ held
      → Works threads (set threads i (record { held = held; todo = rest }))

-- A step of the threads: one works, is woken by a message, or makes its next call.
pub data Step (Call : List Action → Type 0) (threads : List Thread) : List Thread → Type 0 where
  works : {threads' : List Thread} → Works threads threads' → Step Call threads threads'
  wakes :
      (i : ℕ) (thread : Thread) (rest : List Action)
      → get_elem? threads i ≡ some thread
      → thread.todo ≡ waits ∷ rest
      → Step Call threads (set threads i (record thread { todo = rest }))
  calls :
      (i : ℕ) (thread : Thread) (todo : List Action)
      → get_elem? threads i ≡ some thread
      → thread.todo ≡ []
      → Call todo
      → Step Call threads (set threads i (record thread { todo = todo }))

-- The states that threads which made no call yet lead to.
pub data Reach (Call : List Action → Type 0) : List Thread → Type 0 where
  starts : (n : ℕ) → Reach Call (replicate n idle)
  steps :
      {threads threads' : List Thread}
      → Reach Call threads
      → Step Call threads threads'
      → Reach Call threads'
