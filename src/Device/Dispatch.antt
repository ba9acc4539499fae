-- ===== src/Device/Dispatch.antt =====
-- `NetDevice` and `NetDevices` of src/devices/mod.rs: the operations that choose by device type.
use rust_user_net.Base.{
  ℕ, List, ◌∷◌, [], ◌++◌, Option, none, some, bit_or, Run, done, ◌>>=◌, ◌>>◌, check, Res, ok, ◌==◌,
  if◌then◌else◌,
}
use rust_user_net.Net.{ProtocolType, ProtocolData, NetProtocols, enqueue}
use rust_user_net.Utils.LinkedList.{LinkedList, Link, nil, node, push}
use rust_user_net.Device.Types.{
  Env, NetDevice, NetDeviceType, is_open, device_flag_up, device_type_eq,
}
use rust_user_net.Device.Ethernet
use rust_user_net.Device.Loopback

-- `signal_hook::consts::SIGUSR1`.
abbrev pub sigusr1 : ℕ
sigusr1 = 10

-- `NetDevice::open`.
unfoldable pub open_device : Env → NetDevice → Run (Res (Unit {0}) × NetDevice)
unfolding Ethernet.open_ethernet
open_device env device =
    let device' = record device { flags = bit_or device.flags device_flag_up } in
    elim device.device_type [
      | NetDeviceType.loopback ↦ done (ok tt, device')
      | NetDeviceType.ethernet ↦ Ethernet.open_ethernet env device'
    ]

-- `NetDevice::transmit`; the length argument is logged only.
unfoldable pub transmit :
    Env → NetDevice → ProtocolType → List ℕ → List ℕ → Run (Res (Unit {0}) × NetDevice)
transmit env device proto_type payload dst = do
  check (is_open device)
  elim device.device_type [
    | NetDeviceType.loopback ↦ Loopback.transmit env device payload
    | NetDeviceType.ethernet ↦ Ethernet.transmit device proto_type payload dst
  ]

-- `NetDevice::isr`.
unfoldable pub isr : Env → NetDevice → ℕ → NetProtocols → Run (NetDevice × NetProtocols)
isr env device irq protocols = do
  (incoming, device') ← elim device.device_type [
    | NetDeviceType.loopback ↦ Loopback.read_data device
    | NetDeviceType.ethernet ↦ Ethernet.read_data device
  ]
  elim incoming [
    | none ↦ done (device', protocols)
    | some (proto_type, payload, len) ↦ (do
      let entry : ProtocolData = record { irq = irq; payload = some payload; len = len }
      let entries = enqueue proto_type entry protocols.entries.head
      check (env.raise_ok sigusr1)
      done (
        record device' { raised = device'.raised ++ sigusr1 ∷ [] },
        record { entries = record { head = entries } },
      ))
  ]

pub record NetDevices : Type 0 where
  pub entries : LinkedList NetDevice

unfoldable pub register : NetDevices → NetDevice → NetDevices
register devices device = record { entries = push devices.entries device }

-- The loop of `NetDevices::handle_irq`: every device with the interrupt runs its service routine.
handle_irq_link : Env → ℕ → Link NetDevice → NetProtocols → Run (Link NetDevice × NetProtocols)
handle_irq_link env irq nil protocols = done (nil, protocols)
handle_irq_link env irq (node device rest) protocols = do
  (device', protocols') ←
      (if device.irq_entry.irq == irq
        then isr env device irq protocols
        else done (device, protocols))
  (rest', protocols'') ← handle_irq_link env irq rest protocols'
  done (node device' rest', protocols'')

unfoldable pub handle_irq : Env → NetDevices → ℕ → NetProtocols → Run (NetDevices × NetProtocols)
unfolding handle_irq_link
handle_irq env devices irq protocols = do
  (entries, protocols') ← handle_irq_link env irq devices.entries.head protocols
  done (record { entries = record { head = entries } }, protocols')

-- `NetDevices::get_mut_by_type`: the first device of the type.
unfoldable pub get_by_type : Link NetDevice → NetDeviceType → Option NetDevice
unfolding device_type_eq
get_by_type nil device_type = none
get_by_type (node device rest) device_type =
    if device_type_eq device.device_type device_type
    then some device
    else get_by_type rest device_type
