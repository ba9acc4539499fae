-- ===== src/App/Locks/Crossing.antt =====
-- Two threads of src/app.rs that each have the lock which the other one wants.
use rust_user_net.Base.{
  ℕ, suc, replicate, All-replicate, [], ◌≡◌, refl, sym, ap, ◌∙◌, List, ◌∷◌, some, true, false,
  get_elem?, set, get_elem?-set_ne, All-get_elem?,
}
use mathlib.Core.Path.{subst}
use mathlib.Core.Bool.{true≢false}
use mathlib.Core.Option.{some-injective}
use native.Mathlib.Decide.{ℕ_discrete}
use rust_user_net.App.Locks.{
  Lock, Action, Thread, IsCall, Works, Step, Reach, IsFree, holds, works, wakes, calls, starts,
  steps, idle, locked, skip, transmit_locks, handle_protocol_locks, protocol, orderly, transmit,
}

-- The thread is to take a lock that the other one has.
pub record IsBlocked (thread other : Thread) : Type 0 where
  pub lock : Lock
  pub rest : List Action
  pub wants : thread.todo ≡ Action.takes lock ∷ rest
  pub taken : holds lock other.held ≡ true

-- The steps of the program from a state on.
pub data Later (threads : List Thread) : List Thread → Type 0 where
  here : Later threads threads
  next : {now later : List Thread} → Later threads now → Step IsCall now later → Later threads later

-- What a step does: one thread changes, and a lock that it was to take is free.
record IsMove (threads threads' : List Thread) : Type 0 where
  place : ℕ
  before : Thread
  after : Thread
  at : get_elem? threads place ≡ some before
  result : threads' ≡ set threads place after
  free :
      (lock : Lock) (rest : List Action)
      → before.todo ≡ Action.takes lock ∷ rest
      → IsFree lock threads

Works-IsMove : {threads threads' : List Thread} → Works threads threads' → IsMove threads threads'
Works-IsMove {threads} (Works.takes i thread lock rest at e free) = record {
  place = i;
  before = thread;
  after = record { held = lock ∷ thread.held; todo = rest };
  at = at;
  result = refl;
  free = λ lock' rest' e'. subst (λ l. IsFree l threads) (cc (e, e')) free;
}
Works-IsMove (Works.gives i thread lock held rest at e eh) = record {
  place = i;
  before = thread;
  after = record { held = held; todo = rest };
  at = at;
  result = refl;
  free = λ lock' rest' e'. cc (e, e');
}

Step-IsMove :
    {threads threads' : List Thread} → Step IsCall threads threads' → IsMove threads threads'
Step-IsMove (works w) = Works-IsMove w
Step-IsMove (wakes i thread rest at e) = record {
  place = i;
  before = thread;
  after = record thread { todo = rest };
  at = at;
  result = refl;
  free = λ lock' rest' e'. cc (e, e');
}
Step-IsMove (calls i thread todo at e call) = record {
  place = i;
  before = thread;
  after = record thread { todo = todo };
  at = at;
  result = refl;
  free = λ lock' rest' e'. cc (e, e');
}

-- A blocked thread makes no step while the other one stands where it stood.
stays :
    (threads threads' : List Thread) (i j : ℕ) (thread other : Thread)
    → get_elem? threads i ≡ some thread
    → get_elem? threads j ≡ some other
    → IsBlocked thread other
    → IsMove threads threads'
    → get_elem? threads' i ≡ some thread
stays threads threads' i j thread other at at' b m = elim (ℕ_discrete m.place i) [
  | yes same ↦
      let own : m.before ≡ thread =
        some-injective m.before thread (sym m.at ∙ (ap (get_elem? threads) same ∙ at)) in
      let free = m.free b.lock b.rest (ap (λ t. t.todo) own ∙ b.wants) in
      absurd (
        true≢false
          (sym b.taken ∙ All-get_elem? (λ t. holds b.lock t.held ≡ false) threads j other free at'))
  | no ne ↦
      subst (λ ts. get_elem? ts i ≡ some thread) (sym m.result)
        (get_elem?-set_ne threads m.place i m.after ne ∙ at)
]

-- Two threads that each are to take a lock which the other one has stand where they stand for ever,
-- whatever the threads of the program do.
crossed_for_ever :
    {threads later : List Thread} (i j : ℕ) (thread other : Thread)
    → get_elem? threads i ≡ some thread
    → get_elem? threads j ≡ some other
    → IsBlocked thread other
    → IsBlocked other thread
    → Later threads later
    → (get_elem? later i ≡ some thread) × (get_elem? later j ≡ some other)
crossed_for_ever i j thread other at at' b b' here = (at, at')
crossed_for_ever i j thread other at at' b b' (next {now} {later} l s) =
    let (then_at, then_at') = crossed_for_ever i j thread other at at' b b' l in
    (
      stays now later i j thread other then_at then_at' b (Step-IsMove s),
      stays now later j i other thread then_at' then_at b' (Step-IsMove s),
    )

-- A pass of the retransmission that has the lock of the control blocks.
abbrev pub transmitting : Thread
transmitting = record {
  held = Lock.pcbs ∷ [];
  todo = locked (Lock.devices ∷ Lock.contexts ∷ []) skip (Action.gives Lock.pcbs ∷ []);
}

-- A thread that handles packets and has all locks but that of the control blocks.
abbrev pub all_but_pcbs : Thread
all_but_pcbs = record {
  held = Lock.contexts ∷ Lock.protocols ∷ Lock.devices ∷ [];
  todo =
      locked (Lock.pcbs ∷ []) skip
        (Action.gives Lock.contexts ∷ Action.gives Lock.protocols ∷ Action.gives Lock.devices ∷ []);
}

-- These two, and other threads that made no call yet.
abbrev pub crossed : ℕ → List Thread
crossed n = transmitting ∷ all_but_pcbs ∷ replicate n idle

idle-IsFree : (lock : Lock) (n : ℕ) → IsFree lock (replicate n idle)
idle-IsFree lock n = All-replicate (λ thread. holds lock thread.held ≡ false) n idle refl

crossed-Reach : (n : ℕ) → Reach IsCall (crossed n)
crossed-Reach n =
    let free = λ (lock : Lock). idle-IsFree lock n in
    steps
      (steps
        (steps
          (steps
            (steps
              (steps (starts (suc (suc n))) (calls 0 idle (transmit_locks []) refl refl transmit))
              (calls 1 idle (handle_protocol_locks []) refl refl (orderly protocol)))
            (works (Works.takes 0 _ Lock.pcbs _ refl refl (refl, (refl, free Lock.pcbs)))))
          (works (Works.takes 1 _ Lock.devices _ refl refl (refl, (refl, free Lock.devices)))))
        (works (Works.takes 1 _ Lock.protocols _ refl refl (refl, (refl, free Lock.protocols)))))
      (works (Works.takes 1 _ Lock.contexts _ refl refl (refl, (refl, free Lock.contexts))))

Later-Reach :
    {threads later : List Thread} → Reach IsCall threads → Later threads later → Reach IsCall later
Later-Reach r here = r
Later-Reach r (next l s) = steps (Later-Reach r l) s

-- The program, with any number of threads from two on, comes to a state in which a pass of the
-- retransmission has the lock of the control blocks and is to take that of the devices, and a thread
-- that handles packets has all other locks and is to take that of the control blocks. From there on
-- both stand where they stand, in every state that the threads come to.
pub Later-crossed :
    (n : ℕ) (later : List Thread)
    → Later (crossed n) later
    → Reach IsCall (crossed n)
      × Reach IsCall later
      × (get_elem? later 0 ≡ some transmitting)
      × (get_elem? later 1 ≡ some all_but_pcbs)
Later-crossed n later l =
    let (at, at') =
      crossed_for_ever 0 1 transmitting all_but_pcbs refl refl
        (record { lock = Lock.devices; rest = _; wants = refl; taken = refl })
        (record { lock = Lock.pcbs; rest = _; wants = refl; taken = refl }) l in
    (crossed-Reach n, Later-Reach (crossed-Reach n) l, at, at')
