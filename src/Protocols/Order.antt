-- ===== src/Protocols/Order.antt =====
-- The order in which `handle_data` of src/protocols/mod.rs gives the queued packets away.
use rust_user_net.Base.{
  ℕ, ◌≡◌, ◌∙◌, refl, sym, ap, List, [], ◌∷◌, ◌++◌, Run, done, ◌>>=◌, unwrap, length, bind_assoc,
  bind_cong,
}
use rust_user_net.Utils.LinkedList.{Link, nil, node}
use rust_user_net.Net.{ProtocolType, ProtocolData, NetProtocol}
use rust_user_net.Device.Types.{Env, NetDevice}
use rust_user_net.Protocols.{Shared, input_at, handle_queue, handle_data}

-- A packet with its protocol, and how many are behind it in its queue.
pub record Packet : Type 0 where
  pub protocol_type : ProtocolType
  pub left : ℕ
  pub entry : ProtocolData

-- The packets of a queue, oldest first.
abbrev pub queue_packets : ProtocolType → List ProtocolData → List Packet
queue_packets t [] = []
queue_packets t (entry ∷ queue) =
    record { protocol_type = t; left = length queue; entry = entry } ∷ queue_packets t queue

-- The packets of all queues, in the order of the protocols.
abbrev pub all_packets : Link NetProtocol → List Packet
all_packets nil = []
all_packets (node protocol protocols) =
    queue_packets protocol.protocol_type protocol.input_head ++ all_packets protocols

abbrev pub all_emptied : Link NetProtocol → Link NetProtocol
all_emptied nil = nil
all_emptied (node protocol protocols) =
    node (record protocol { input_head = [] }) (all_emptied protocols)

module _ (env : Env) (random : ℕ → ℕ) where
  -- One packet is given to the device with its interrupt; one without bytes is a panic.
  abbrev pub give : Packet → Link NetDevice × Shared → Run (Link NetDevice × Shared)
  give p s = unwrap p.entry.payload >>= λ bytes.
      input_at env p.protocol_type bytes p.entry.len (random p.left) p.entry.irq s.0 s.1

  -- The packets one after the other.
  abbrev pub give_all : List Packet → Link NetDevice × Shared → Run (Link NetDevice × Shared)
  give_all [] s = done s
  give_all (p ∷ ps) s = give p s >>= give_all ps

  give_all-append :
      (ps qs : List Packet) (s : Link NetDevice × Shared)
      → give_all (ps ++ qs) s ≡ give_all ps s >>= give_all qs
  give_all-append [] qs s = refl
  give_all-append (p ∷ ps) qs s =
      bind_assoc (give p s) (give_all ps) (give_all qs) (give_all (ps ++ qs))
        (give_all-append ps qs)

  handle_queue_lem :
      (t : ProtocolType) (queue : List ProtocolData) (s : Link NetDevice × Shared)
      → handle_queue env t random queue s.0 s.1 ≡ give_all (queue_packets t queue) s
  unfolding handle_queue
  handle_queue_lem t [] s = refl
  handle_queue_lem t (entry ∷ queue) s =
      bind_assoc (unwrap entry.payload)
        (λ bytes. input_at env t bytes entry.len (random (length queue)) entry.irq s.0 s.1)
        (give_all (queue_packets t queue)) _
        (λ bytes.
          bind_cong (input_at env t bytes entry.len (random (length queue)) entry.irq s.0 s.1) _ _
            (handle_queue_lem t queue))

  -- `handle_data` gives the packets of all queues away one after the other, first those of the first
  -- protocol, each queue from its oldest packet on, each packet with what the packets before it left;
  -- it returns when all of them are handled, and then every queue is empty; else it ends as the
  -- first packet that is not handled.
  pub handle_data-give_all :
      (protocols : Link NetProtocol) (devices : Link NetDevice) (shared : Shared)
      → handle_data env random protocols devices shared
        ≡ give_all (all_packets protocols) (devices, shared) >>= λ s.
            done (all_emptied protocols, s.0, s.1)
  unfolding handle_data
  handle_data-give_all nil devices shared = refl
  handle_data-give_all (node protocol protocols) devices shared =
      let head = queue_packets protocol.protocol_type protocol.input_head in
      ap
        (λ m. m >>= λ s. handle_data env random protocols s.0 s.1 >>= λ r.
          done (node (record protocol { input_head = [] }) r.0, r.1, r.2))
        (handle_queue_lem protocol.protocol_type protocol.input_head (devices, shared))
      ∙ bind_assoc (give_all head (devices, shared)) (give_all (all_packets protocols)) _ _ (λ s.
        ap (λ m. m >>= λ r. done (node (record protocol { input_head = [] }) r.0, r.1, r.2))
          (handle_data-give_all protocols s.0 s.1)
        ∙ sym (bind_assoc (give_all (all_packets protocols) s) _ _ _ (λ r. refl)))
      ∙ ap (λ m. m >>= λ s. done (all_emptied (node protocol protocols), s.0, s.1))
          (sym (give_all-append head (all_packets protocols) (devices, shared)))
