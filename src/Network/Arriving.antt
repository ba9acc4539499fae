-- ===== src/Network/Arriving.antt =====
-- A packet on its way in: from the interrupt of the TAP device through the queue of its protocol to
-- `input` of src/protocols/ip/mod.rs.
use rust_user_net.Base.{
  ℕ, ◌≤◌, ◌≡◌, refl, List, [], ◌∷◌, ◌++◌, some, true, false, done, ok, ◌==◌, length,
}
use rust_user_net.Utils.LinkedList.{nil, node}
use rust_user_net.Net.{ProtocolType, ProtocolData, enqueue, protocol_eq}
use rust_user_net.Device.Types.{Env, NetDevice, NetDeviceType, DriverData}
use rust_user_net.Device.Frames.{framed, with_frames, takes}
use rust_user_net.Device.Dispatch.{NetDevices, isr, sigusr1}
use rust_user_net.Device.Dispatch as Dispatch
use rust_user_net.Device.Interrupts.{isr-framed}
use rust_user_net.Ip.Input as IpInput
use rust_user_net.Ip.Input.{Stack}
use rust_user_net.Protocols.{Shared, stack_of, shared_of, handle_data, input}
use rust_user_net.App.{NetApp}
use rust_user_net.App.Signals.{handle_irq, handle_protocol}

-- The program as `NetApp::new` lays it out: a device and the TAP device, ARP with an empty queue and
-- IP with a queue.
abbrev pub app_with : NetDevice → NetDevice → List ProtocolData → Shared → NetApp
app_with other device queue shared = record {
  devices = record { entries = record { head = node other (node device nil) } };
  protocols = record {
    entries = record {
      head =
          node (record { protocol_type = ProtocolType.arp; input_head = [] })
            (node (record { protocol_type = ProtocolType.ip; input_head = queue }) nil);
    };
  };
  shared = shared;
}

-- The TAP device behind an interrupt.
abbrev pub raised : NetDevice → NetDevice
raised device = record device { raised = device.raised ++ sigusr1 ∷ [] }

abbrev pub entry : ℕ → List ℕ → ProtocolData
entry irq body = record { irq = irq; payload = some body; len = length body }

-- The TAP device that reads frames for an address, with an interrupt that the other device does not
-- have; SIGUSR1 can be raised.
pub record CanReceive (env : Env) (other reader : NetDevice) (irq : ℕ) (hw_addr : List ℕ)
    : Type 0 where
  pub other_irq : (other.irq_entry.irq == irq) ≡ false
  pub own_irq : (reader.irq_entry.irq == irq) ≡ true
  pub ethernet : reader.device_type ≡ NetDeviceType.ethernet
  pub taken : takes reader hw_addr ≡ true
  pub raises : env.raise_ok sigusr1 ≡ true

-- The interrupt puts the packet of the frame into the queue of IP.
pub handle_irq-framed :
    (env : Env) (other reader : NetDevice) (driver : DriverData) (frames : List (List ℕ))
    (hw_addr src body : List ℕ) (irq : ℕ) (shared : Shared)
    → length hw_addr ≡ 6
    → length src ≡ 6
    → length body ≤ 1500
    → CanReceive env other reader irq hw_addr
    → handle_irq env irq (
        app_with other
          (with_frames reader driver (framed hw_addr src ProtocolType.ip body ∷ frames))
          []
          shared)
      ≡ done
          (app_with other (raised (with_frames reader driver frames)) (entry irq body ∷ []) shared)
unfolding handle_irq Dispatch.handle_irq enqueue protocol_eq
handle_irq-framed env other reader driver frames hw_addr src body irq shared hd hs hb c =
    rw
      (
        c.other_irq,
        c.own_irq,
        isr-framed env reader driver frames ProtocolType.ip hw_addr src body irq _ hd hs hb
            c.ethernet c.taken c.raises,
      )
      refl

-- The handler of the queue gives the packet to `input`, and is done with it.
pub handle_protocol-entry :
    (env : Env) (random : ℕ → ℕ) (other reader : NetDevice) (body : List ℕ) (irq : ℕ)
    (shared : Shared) (s : Stack)
    → (other.irq_entry.irq == irq) ≡ false
    → (reader.irq_entry.irq == irq) ≡ true
    → IpInput.input env body (length body) (random 0) (stack_of reader shared) ≡ done (ok tt, s)
    → handle_protocol env random (app_with other reader (entry irq body ∷ []) shared)
      ≡ done (app_with other s.host.device [] (shared_of s))
unfolding handle_protocol handle_data input
handle_protocol-entry env random other reader body irq shared s ho hr e = rw (ho, hr, e) refl
