-- ===== src/App/Locks/Progress.antt =====
-- Calls of src/app.rs that take the locks in one order: some thread can always go on.
use rust_user_net.Base.{
  ℕ, zero, suc, ◌+◌, ◌≤◌, ◌<◌, ◌≡◌, refl, sym, Bool-cases, List, [], ◌∷◌, some, true, false, ◌⊎◌,
  inl, inr, get_elem?, replicate, All, All-set, All-get_elem?, All-replicate, arith,
}
use mathlib.Core.Path.{subst}
use rust_user_net.App.Locks.{
  Lock, Action, ReceiveEnd, receive_end, Thread, IsOrderly, Works, Step, Reach, IsFree, idle,
  lock_eq, holds, locked, skip, wait, on_pcbs, repeat, waits, protocol, irq, closing, udp_open,
  udp_send, udp_receive, tcp_receive, works, wakes, calls, starts, steps,
}

abbrev rank : Lock → ℕ
rank Lock.devices = 0
rank Lock.protocols = 1
rank Lock.contexts = 2
rank Lock.pcbs = 3

-- What is left to do fits the locks that are held: they are given back, the last one first, each is
-- taken with lower ones only, and a message is waited for with none.
Fits : List Lock → List Action → Type 0
Fits held [] = held ≡ []
Fits held (Action.takes lock ∷ rest) =
    All (λ other. rank other < rank lock) held × Fits (lock ∷ held) rest
Fits held (Action.gives lock ∷ rest) = (held' : List Lock) × (held ≡ lock ∷ held') × Fits held' rest
Fits held (waits ∷ rest) = (held ≡ []) × Fits held rest

abbrev IsFitting : Thread → Type 0
IsFitting thread = Fits thread.held thread.todo

abbrev IsAscending : List Lock → List Lock → Type 0
IsAscending held [] = Unit
IsAscending held (lock ∷ locks) =
    All (λ other. rank other < rank lock) held × IsAscending (lock ∷ held) locks

locked-Fits :
    (locks held : List Lock) (rest : List Action)
    → IsAscending held locks
    → Fits held rest
    → Fits held (locked locks skip rest)
unfolding Fits
locked-Fits [] held rest a h = h
locked-Fits (lock ∷ locks) held rest a h =
    (a.0, locked-Fits locks (lock ∷ held) (Action.gives lock ∷ rest) a.1 (held, refl, h))

on_pcbs-Fits : (rest : List Action) → Fits [] rest → Fits [] (on_pcbs rest)
on_pcbs-Fits rest h = locked-Fits (Lock.pcbs ∷ []) [] rest (tt, tt) h

woken-Fits :
    (n : ℕ) (rest : List Action)
    → Fits [] rest
    → Fits [] (repeat n (λ more. wait (on_pcbs more)) rest)
unfolding Fits
woken-Fits zero rest h = h
woken-Fits (suc n) rest h =
    (refl, on_pcbs-Fits (repeat n (λ more. wait (on_pcbs more)) rest) (woken-Fits n rest h))

end-Fits : (end : ReceiveEnd) → Fits [] (receive_end end [])
unfolding Fits
end-Fits ReceiveEnd.taken = on_pcbs-Fits [] refl
end-Fits ReceiveEnd.stopped = (refl, refl)
end-Fits ReceiveEnd.refused = refl

IsOrderly-Fits : {todo : List Action} → IsOrderly todo → Fits [] todo
unfolding Fits
IsOrderly-Fits protocol =
    locked-Fits (Lock.devices ∷ Lock.protocols ∷ Lock.contexts ∷ Lock.pcbs ∷ []) [] [] (omega arith)
      refl
IsOrderly-Fits irq = locked-Fits (Lock.devices ∷ Lock.protocols ∷ []) [] [] (omega arith) refl
IsOrderly-Fits closing = on_pcbs-Fits [] refl
IsOrderly-Fits udp_open = on_pcbs-Fits [] refl
IsOrderly-Fits udp_send =
    locked-Fits (Lock.devices ∷ Lock.contexts ∷ Lock.pcbs ∷ []) [] [] (omega arith) refl
IsOrderly-Fits (udp_receive true) = on_pcbs-Fits (wait (on_pcbs [])) (refl, on_pcbs-Fits [] refl)
IsOrderly-Fits (udp_receive false) = on_pcbs-Fits (wait []) (refl, refl)
IsOrderly-Fits (tcp_receive woken end) =
    on_pcbs-Fits _ (woken-Fits woken (receive_end end []) (end-Fits end))

-- The steps keep the fit.
IsFitting-starts : (n : ℕ) → All IsFitting (replicate n idle)
unfolding Fits
IsFitting-starts n = All-replicate IsFitting n idle refl

takes-Fits :
    (thread : Thread) (lock : Lock) (rest : List Action)
    → thread.todo ≡ Action.takes lock ∷ rest
    → IsFitting thread
    → All (λ other. rank other < rank lock) thread.held × Fits (lock ∷ thread.held) rest
unfolding Fits
takes-Fits thread lock rest e h = subst (Fits thread.held) e h

gives-Fits :
    (thread : Thread) (lock : Lock) (rest : List Action)
    → thread.todo ≡ Action.gives lock ∷ rest
    → IsFitting thread
    → (held : List Lock) × (thread.held ≡ lock ∷ held) × Fits held rest
unfolding Fits
gives-Fits thread lock rest e h = subst (Fits thread.held) e h

waits-Fits :
    (thread : Thread) (rest : List Action)
    → thread.todo ≡ waits ∷ rest
    → IsFitting thread
    → (thread.held ≡ []) × Fits thread.held rest
unfolding Fits
waits-Fits thread rest e h = subst (Fits thread.held) e h

done-Fits : (thread : Thread) → thread.todo ≡ [] → IsFitting thread → thread.held ≡ []
unfolding Fits
done-Fits thread e h = subst (Fits thread.held) e h

Works-Fitting :
    {threads threads' : List Thread}
    → Works threads threads'
    → All IsFitting threads
    → All IsFitting threads'
Works-Fitting {threads} (Works.takes i thread lock rest at e free) h =
    All-set IsFitting threads i _ h
      (takes-Fits thread lock rest e (All-get_elem? IsFitting threads i thread h at)).1
Works-Fitting {threads} (Works.gives i thread lock held rest at e eh) h =
    let (held', eh', fit) =
      gives-Fits thread lock rest e (All-get_elem? IsFitting threads i thread h at) in
    All-set IsFitting threads i _ h (subst (λ held'. Fits held' rest) (cc (eh, eh')) fit)

Step-Fitting :
    {threads threads' : List Thread}
    → Step IsOrderly threads threads'
    → All IsFitting threads
    → All IsFitting threads'
Step-Fitting (works w) h = Works-Fitting w h
Step-Fitting {threads} (wakes i thread rest at e) h =
    All-set IsFitting threads i _ h
      (waits-Fits thread rest e (All-get_elem? IsFitting threads i thread h at)).1
Step-Fitting {threads} (calls i thread todo at e call) h = All-set IsFitting threads i _ h (
    subst (λ held. Fits held todo)
      (sym (done-Fits thread e (All-get_elem? IsFitting threads i thread h at)))
      (IsOrderly-Fits call))

Reach-Fitting : {threads : List Thread} → Reach IsOrderly threads → All IsFitting threads
Reach-Fitting (starts n) = IsFitting-starts n
Reach-Fitting (steps r s) = Step-Fitting s (Reach-Fitting r)

-- Whether some thread has the lock.
free_or_held :
    (lock : Lock) (threads : List Thread)
    → IsFree lock threads
      ⊎ ((i : ℕ) × (thread : Thread) × (get_elem? threads i ≡ some thread)
          × (holds lock thread.held ≡ true))
free_or_held lock [] = inl tt
free_or_held lock (thread ∷ threads) = elim (Bool-cases (holds lock thread.held)) [
  | inl e ↦ inr (0, thread, refl, e)
  | inr e ↦ elim (free_or_held lock threads) [
    | inl free ↦ inl (e, free)
    | inr (i, other, at, eh) ↦ inr (suc i, other, at, eh)
  ]
]

lock_eq-rank : (lock other : Lock) → lock_eq lock other ≡ true → rank lock ≡ rank other
lock_eq-rank Lock.devices Lock.devices h = refl
lock_eq-rank lock other h = ground arith

rank_bound : (lock : Lock) → rank lock < 4
rank_bound Lock.devices = omega arith
rank_bound lock = omega arith

-- A lock that is held is below any that is taken with it.
held-below :
    (lock bound : Lock) (held : List Lock)
    → holds lock held ≡ true
    → All (λ other. rank other < rank bound) held
    → rank lock < rank bound
held-below lock bound [] e h = cc
held-below lock bound (other ∷ held) e h = elim (Bool-cases (lock_eq lock other)) [
  | inl same ↦ omega (arith, h.0, lock_eq-rank lock other same)
  | inr differs ↦ held-below lock bound held (rw differs at e) h.1
]

none_held : (lock : Lock) (held : List Lock) → holds lock held ≡ true → held ≡ [] → ⊥
none_held lock [] e h = cc
none_held lock (other ∷ held) e h = cc

-- What a thread that has a lock does next: it gives its last one back, or takes a higher one.
next_action :
    (lock : Lock) (held : List Lock) (todo : List Action)
    → holds lock held ≡ true
    → Fits held todo
    → ((last : Lock) × (held' : List Lock) × (rest : List Action) × (held ≡ last ∷ held')
        × (todo ≡ Action.gives last ∷ rest))
      ⊎ ((higher : Lock) × (rest : List Action) × (todo ≡ Action.takes higher ∷ rest)
          × (rank lock < rank higher))
unfolding Fits
next_action lock held [] e h = absurd (none_held lock held e h)
next_action lock held (Action.takes higher ∷ rest) e h =
    inr (higher, rest, refl, held-below lock higher held e h.0)
next_action lock held (Action.gives last ∷ rest) e (held', eh, h) =
    inl (last, held', rest, eh, refl)
next_action lock held (waits ∷ rest) e h = absurd (none_held lock held e h.0)

-- Along the locks that threads wait for, up to one that is free or about to be given back.
goes_on :
    (n : ℕ) (threads : List Thread) (i : ℕ) (thread : Thread) (lock : Lock) (rest : List Action)
    → All IsFitting threads
    → get_elem? threads i ≡ some thread
    → thread.todo ≡ Action.takes lock ∷ rest
    → 4 ≤ rank lock + n
    → (threads' : List Thread) × Works threads threads'
goes_on zero threads i thread lock rest h at e enough = absurd (omega (arith, rank_bound lock))
goes_on (suc n) threads i thread lock rest h at e enough = elim (free_or_held lock threads) [
  | inl free ↦ (_, Works.takes i thread lock rest at e free)
  | inr (j, other, at', held) ↦
      elim (next_action lock other.held other.todo held
        (All-get_elem? IsFitting threads j other h at')) [
          | inl (last, held', rest', eh, e') ↦ (_, Works.gives j other last held' rest' at' e' eh)
          | inr (higher, rest', e', lt) ↦
              goes_on n threads j other higher rest' h at' e' (omega (arith, lt, enough))
        ]
]

-- Of any number of threads that handle protocols and interrupts, close the sockets, and open, send
-- and receive by UDP or receive by TCP, in whatever order they step: whenever one is to take a lock,
-- some thread can take a lock that is free or give one back.
pub no_deadlock :
    (threads : List Thread) (i : ℕ) (thread : Thread) (lock : Lock) (rest : List Action)
    → Reach IsOrderly threads
    → get_elem? threads i ≡ some thread
    → thread.todo ≡ Action.takes lock ∷ rest
    → (threads' : List Thread) × Works threads threads'
no_deadlock threads i thread lock rest reach at e =
    goes_on 4 threads i thread lock rest (Reach-Fitting reach) at e (omega arith)
