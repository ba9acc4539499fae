-- ===== src/Tests/Locking.antt =====
-- Examples for the locks: an interrupt while packets are handled, and the retransmission that meets
-- the handling of packets.
use rust_user_net.Base.{◌≡◌, refl, List, [], ◌∷◌, some, get_elem?}
use rust_user_net.App.Locks.{
  Lock, Action, Thread, IsCall, IsOrderly, Works, Reach, idle, locked, skip, handle_protocol_locks,
  handle_irq_locks, protocol, irq, orderly, works, calls, starts, steps,
}
use rust_user_net.App.Locks.Progress.{no_deadlock}
use rust_user_net.App.Locks.Crossing.{
  here, next, transmitting, all_but_pcbs, crossed, Later-crossed,
}

-- A thread that handles packets and has the lock of the devices.
abbrev handling : Thread
handling = record {
  held = Lock.devices ∷ [];
  todo =
      locked (Lock.protocols ∷ Lock.contexts ∷ Lock.pcbs ∷ []) skip
        (Action.gives Lock.devices ∷ []);
}

-- A thread that is to handle an interrupt.
abbrev interrupted : Thread
interrupted = record { held = []; todo = handle_irq_locks [] }

contended-Reach : Reach IsOrderly (handling ∷ interrupted ∷ [])
contended-Reach =
    steps
      (steps (steps (starts 2) (calls 0 idle (handle_protocol_locks []) refl refl protocol))
        (calls 1 idle (handle_irq_locks []) refl refl irq))
      (works (Works.takes 0 _ Lock.devices _ refl refl (refl, (refl, tt))))

no_deadlock_example : (threads' : List Thread) × Works (handling ∷ interrupted ∷ []) threads'
no_deadlock_example =
    no_deadlock (handling ∷ interrupted ∷ []) 1 interrupted Lock.devices _ contended-Reach refl refl

-- A third thread is to handle an interrupt.
abbrev crossed_later : List Thread
crossed_later = transmitting ∷ all_but_pcbs ∷ interrupted ∷ []

Later-crossed_example :
    Reach IsCall (crossed 1)
    × Reach IsCall crossed_later
    × (get_elem? crossed_later 0 ≡ some transmitting)
    × (get_elem? crossed_later 1 ≡ some all_but_pcbs)
Later-crossed_example =
    Later-crossed 1 crossed_later
      (next here (calls 2 idle (handle_irq_locks []) refl refl (orderly irq)))
