-- ===== src/Device/Interrupts.antt =====
-- The interrupt of a device of src/devices/mod.rs for a frame that another device built: the frame's
-- payload in the queue of its protocol.
use rust_user_net.Base.{
  ℕ, ◌≡◌, ◌≤◌, refl, ap, List, [], ◌∷◌, ◌++◌, Option, none, some, Bool, true, false, done,
  if◌then◌else◌, length, arith,
}
use rust_user_net.Utils.LinkedList.{Link, nil, node}
use rust_user_net.Net.{ProtocolType, ProtocolData, NetProtocol, NetProtocols, protocol_eq, enqueue}
use rust_user_net.Device.Types.{Env, NetDevice, NetDeviceType, DriverData, mac_of}
use rust_user_net.Device.Ethernet.{build_frame, eth_payload_max}
use rust_user_net.Device.Frames.{
  framed, with_frames, takes, padded, build_frame_lem, read_data_lem, length-padded,
}
use rust_user_net.Device.Dispatch.{isr, sigusr1}

-- The queue of the first protocol of a type.
abbrev pub queue_of : ProtocolType → Link NetProtocol → Option (List ProtocolData)
queue_of t nil = none
queue_of t (node protocol rest) =
    if protocol_eq protocol.protocol_type t then some protocol.input_head else queue_of t rest

abbrev pub with_entry : ProtocolData → Option (List ProtocolData) → Option (List ProtocolData)
with_entry entry none = none
with_entry entry (some queue) = some (queue ++ entry ∷ [])

-- One protocol, whose test is known, in front of the rest.
queue_of-first :
    (b : Bool) (t : ProtocolType) (entry : ProtocolData) (protocol : NetProtocol)
    (rest : Link NetProtocol)
    → protocol_eq protocol.protocol_type t ≡ b
    → queue_of t (enqueue t entry rest) ≡ with_entry entry (queue_of t rest)
    → queue_of t (enqueue t entry (node protocol rest))
      ≡ with_entry entry (queue_of t (node protocol rest))
unfolding enqueue
queue_of-first true t entry protocol rest e h = rw e (rw e refl)
queue_of-first false t entry protocol rest e h = rw e (rw e h)

queue_of-enqueue :
    (t : ProtocolType) (entry : ProtocolData) (protocols : Link NetProtocol)
    → queue_of t (enqueue t entry protocols) ≡ with_entry entry (queue_of t protocols)
unfolding enqueue
queue_of-enqueue t entry nil = refl
queue_of-enqueue t entry (node protocol rest) =
    queue_of-first (protocol_eq protocol.protocol_type t) t entry protocol rest refl
      (queue_of-enqueue t entry rest)

protocol_eq→eq : (p t : ProtocolType) → protocol_eq p t ≡ true → p ≡ t
unfolding protocol_eq
protocol_eq→eq ProtocolType.arp ProtocolType.arp h = refl
protocol_eq→eq ProtocolType.ip ProtocolType.ip h = refl
protocol_eq→eq ProtocolType.unknown ProtocolType.unknown h = refl
protocol_eq→eq ProtocolType.arp ProtocolType.ip h = cc
protocol_eq→eq ProtocolType.arp ProtocolType.unknown h = cc
protocol_eq→eq ProtocolType.ip ProtocolType.arp h = cc
protocol_eq→eq ProtocolType.ip ProtocolType.unknown h = cc
protocol_eq→eq ProtocolType.unknown ProtocolType.arp h = cc
protocol_eq→eq ProtocolType.unknown ProtocolType.ip h = cc

-- A queue of another type, with the first protocol's tests known.
queue_of-passed :
    (b c : Bool) (t u : ProtocolType) (entry : ProtocolData) (protocol : NetProtocol)
    (rest : Link NetProtocol)
    → protocol_eq protocol.protocol_type t ≡ b
    → protocol_eq protocol.protocol_type u ≡ c
    → protocol_eq t u ≡ false
    → queue_of u (enqueue t entry rest) ≡ queue_of u rest
    → queue_of u (enqueue t entry (node protocol rest)) ≡ queue_of u (node protocol rest)
unfolding enqueue
queue_of-passed true c t u entry protocol rest e f ne h =
    rw (e, protocol_eq→eq protocol.protocol_type t e, ne) refl
queue_of-passed false true t u entry protocol rest e f ne h = rw (e, f) refl
queue_of-passed false false t u entry protocol rest e f ne h = rw e (rw f h)

queue_of-enqueue_other :
    (t u : ProtocolType) (entry : ProtocolData) (protocols : Link NetProtocol)
    → protocol_eq t u ≡ false
    → queue_of u (enqueue t entry protocols) ≡ queue_of u protocols
unfolding enqueue
queue_of-enqueue_other t u entry nil ne = refl
queue_of-enqueue_other t u entry (node protocol rest) ne =
    queue_of-passed (protocol_eq protocol.protocol_type t) (protocol_eq protocol.protocol_type u) t
      u entry protocol rest refl refl ne (queue_of-enqueue_other t u entry rest ne)

-- The entry for a frame of the payload.
abbrev pub entry_of : ℕ → List ℕ → ProtocolData
entry_of irq payload = record {
  irq = irq;
  payload = some (padded payload);
  len = length (padded payload);
}

-- The interrupt for a frame with these fields.
pub isr-framed :
    (env : Env) (reader : NetDevice) (driver : DriverData) (frames : List (List ℕ))
    (t : ProtocolType) (dst src body : List ℕ) (irq : ℕ) (protocols : NetProtocols)
    → length dst ≡ 6
    → length src ≡ 6
    → length body ≤ eth_payload_max
    → reader.device_type ≡ NetDeviceType.ethernet
    → takes reader dst ≡ true
    → env.raise_ok sigusr1 ≡ true
    → isr env (with_frames reader driver (framed dst src t body ∷ frames)) irq protocols
      ≡ done (
        record (with_frames reader driver frames) { raised = reader.raised ++ sigusr1 ∷ [] },
        record {
          entries = record {
            head =
                enqueue t
                  (record { irq = irq; payload = some body; len = length body })
                  protocols.entries.head;
          };
        },
      )
unfolding isr
isr-framed env reader driver frames t dst src body irq protocols hd hs hp he ht hr =
    rw (he, read_data_lem reader driver frames t dst src body hd hs hp, ht, hr)
      (ap
        (λ kind. done (
          record (with_frames reader driver frames) {
            device_type = kind;
            raised = reader.raised ++ sigusr1 ∷ [];
          },
          record {
            entries = record {
              head =
                  enqueue t (record { irq = irq; payload = some body; len = length body })
                    protocols.entries.head;
            };
          },
        ))
        he)

-- The interrupt of an Ethernet device whose next frame is one that another device built for it: the
-- first queue of the frame's type has the padded payload behind what it held, the queues of the
-- other types are as they were, the frame is taken, and SIGUSR1 is raised, when that can be done.
pub isr-build_frame :
    (env : Env) (sender reader : NetDevice) (driver : DriverData) (frames : List (List ℕ))
    (t : ProtocolType) (payload dst : List ℕ) (irq : ℕ) (protocols : NetProtocols)
    → length dst ≡ 6
    → length (mac_of sender) ≡ 6
    → length payload ≤ eth_payload_max
    → reader.device_type ≡ NetDeviceType.ethernet
    → takes reader dst ≡ true
    → env.raise_ok sigusr1 ≡ true
    → (frame : List ℕ) × (protocols' : NetProtocols) × (build_frame sender t payload dst
        ≡ done frame)
      × (isr env (with_frames reader driver (frame ∷ frames)) irq protocols
          ≡ done (
            record (with_frames reader driver frames) { raised = reader.raised ++ sigusr1 ∷ [] },
            protocols',
          ))
      × (queue_of t protocols'.entries.head
          ≡ with_entry (entry_of irq payload) (queue_of t protocols.entries.head))
      × ((u : ProtocolType)
          → protocol_eq t u ≡ false
          → queue_of u protocols'.entries.head ≡ queue_of u protocols.entries.head)
isr-build_frame env sender reader driver frames t payload dst irq protocols hd hs hp he ht hr = (
  framed dst (mac_of sender) t (padded payload),
  record { entries = record { head = enqueue t (entry_of irq payload) protocols.entries.head } },
  build_frame_lem sender t payload dst hd hs hp,
  isr-framed env reader driver frames t dst (mac_of sender) (padded payload) irq protocols hd hs
      (omega (arith, length-padded payload, hp)) he ht hr,
  queue_of-enqueue t (entry_of irq payload) protocols.entries.head,
  λ u ne. queue_of-enqueue_other t u (entry_of irq payload) protocols.entries.head ne,
)
