-- ===== src/Channel.antt =====
-- The channels of `std::sync::mpsc` that wake the user commands. A sender is the number of its
-- channel in the list of all that were made; a message to a channel whose receiver is gone is an
-- error for the sender, and is not kept.
use rust_user_net.Base.{
  ℕ, List, [], ◌∷◌, ◌++◌, Option, none, some, Bool, true, false, length, get_elem?, set,
}

pub record Channel : Type 0 where
  pub receiver_alive : Bool
  pub queue : List Bool

abbrev pub Channels : Type 0
Channels = List Channel

-- `mpsc::channel()`.
unfoldable pub new_channel : Channels → ℕ × Channels
new_channel channels =
    (length channels, channels ++ record { receiver_alive = true; queue = [] } ∷ [])

deliver : Channels → ℕ → Bool → Channel → Bool × Channels
deliver channels sender message c = elim c.receiver_alive [
  | true ↦ (true, set channels sender (record c { queue = c.queue ++ message ∷ [] }))
  | false ↦ (false, channels)
]

-- `sender.send(message)`, with whether it succeeded.
unfoldable pub send : Channels → ℕ → Bool → Bool × Channels
unfolding deliver
send channels sender message = elim (get_elem? channels sender) [
  | none ↦ (false, channels)
  | some c ↦ deliver channels sender message c
]

pop : Channels → ℕ → Channel → List Bool → Option Bool × Channels
pop channels receiver c [] = (none, channels)
pop channels receiver c (message ∷ queue) =
    (some message, set channels receiver (record c { queue = queue }))

-- `receiver.recv()`, where `none` is a receiver that has to wait.
unfoldable pub recv : Channels → ℕ → Option Bool × Channels
unfolding pop
recv channels receiver = elim (get_elem? channels receiver) [
  | none ↦ (none, channels)
  | some c ↦ pop channels receiver c c.queue
]

-- The receiver goes out of scope.
unfoldable pub drop_receiver : Channels → ℕ → Channels
drop_receiver channels receiver = elim (get_elem? channels receiver) [
  | none ↦ channels
  | some c ↦ set channels receiver (record c { receiver_alive = false })
]
