-- ===== src/App.antt =====
-- `NetApp` of src/app.rs: the state under its four locks, and the calls that take the Ethernet
-- device out of it.
pub mod Setup
pub mod Signals
pub mod Commands
pub mod CommandLine
pub mod Boot
pub mod Order
pub mod Locks
use rust_user_net.Base.{ℕ, Option, none, some, Run, done, ◌>>=◌, unwrap, if◌then◌else◌}
use rust_user_net.Utils.LinkedList.{Link, nil, node}
use rust_user_net.Net.{NetProtocols}
use rust_user_net.Device.Types.{NetDevice, NetDeviceType, device_type_eq}
use rust_user_net.Device.Dispatch.{NetDevices, get_by_type}
use rust_user_net.Tcp.World.{World}
use rust_user_net.Protocols.{Shared}

-- `contexts` and `pcbs` stand in `shared`.
pub record NetApp : Type 0 where
  pub devices : NetDevices
  pub protocols : NetProtocols
  pub shared : Shared

-- The first device of the type is written back.
unfoldable pub put_by_type : Link NetDevice → NetDeviceType → NetDevice → Link NetDevice
unfolding device_type_eq
put_by_type nil device_type device' = nil
put_by_type (node device rest) device_type device' =
    if device_type_eq device.device_type device_type
    then node device' rest
    else node device (put_by_type rest device_type device')

-- The Ethernet device with what the TCP commands change.
unfoldable pub world_with : NetDevice → Shared → World
world_with device shared = record {
  host = record { device = device; contexts = shared.contexts };
  pcbs = shared.tcp_pcbs;
  channels = shared.channels;
}

unfoldable pub put_world : World → NetApp → NetApp
unfolding put_by_type
put_world w app = record app {
  devices = record {
    entries = record {
      head = put_by_type app.devices.entries.head NetDeviceType.ethernet w.host.device;
    };
  };
  shared = record (app.shared) {
    contexts = w.host.contexts;
    tcp_pcbs = w.pcbs;
    channels = w.channels;
  };
}

-- `devices.get_mut_by_type(NetDeviceType::Ethernet).unwrap()`.
unfoldable pub ethernet_device : NetApp → Run NetDevice
ethernet_device app = unwrap (get_by_type app.devices.entries.head NetDeviceType.ethernet)

-- A command of TCP on the Ethernet device, under the locks.
unfoldable pub on_ethernet {ℓ} :
    {A : Type ℓ} → (World → Run (A × World)) → NetApp → Run (A × NetApp)
on_ethernet command app = do
  device ← ethernet_device app
  (a, w) ← command (world_with device app.shared)
  done (a, put_world w app)
