-- ===== src/App/Boot.antt =====
-- The program after `NetApp::new` of src/app.rs.
use rust_user_net.Base.{
  ℕ, ◌≡◌, refl, List, [], Option, some, done, bit_and, true, ◌==◌, if◌then◌else◌, eq→==, ne→==,
  arith,
}
use native.Mathlib.Decide.{ℕ_discrete}
use rust_user_net.Utils.LinkedList.{push}
use rust_user_net.Net.{NetInterfaceFamily}
use rust_user_net.Device.Types.{
  Env, NetDevice, NetDeviceType, get_interface, is_open, new_device, register_interface,
}
use rust_user_net.Device.Dispatch.{get_by_type, open_device}
use rust_user_net.Ip.Addr.{ip_addr_to_bytes}
use rust_user_net.Ip.Route.{
  IpRoute, IpRoutes, lookup_ip_route, new_ip_interface, interface_route, gateway_route,
}
use rust_user_net.Device.Types.{DriverType}
use rust_user_net.Net.{
  ProtocolType, new_irq_entry, new_protocols, new_protocol, register as register_protocol,
}
use rust_user_net.Device.Dispatch.{register as register_device}
use rust_user_net.Ip.Route.{pick, pick_from, new_routes, IpInterface, register as register_route}
use rust_user_net.Utils.LinkedList.{nil, node, new}
use rust_user_net.Device.Ethernet
use rust_user_net.Device.Loopback
use rust_user_net.Udp.Pcbs as UdpBlocks
use rust_user_net.Tcp.Pcbs as TcpBlocks
use rust_user_net.Arp.Table.{new_table}
use rust_user_net.Base.Bits.{bit_and_low}
use rust_user_net.Utils.Byte.{be_to_le_u32, byte_swap_u32}
use rust_user_net.App.{NetApp}
use rust_user_net.App.Setup.{new_app}

abbrev pub iface_at : ℕ → ℕ → IpInterface
iface_at unicast broadcast = record {
  interface = record { family = NetInterfaceFamily.ip };
  unicast = unicast;
  netmask = 0x00ffffff;
  broadcast = broadcast;
}

-- 127.0.0.1 and 192.0.2.2.
abbrev pub loopback_iface : IpInterface
loopback_iface = iface_at 0x0100007f 0xff00007f

abbrev pub tap_iface : IpInterface
tap_iface = iface_at 0x020200c0 0xff0200c0

abbrev pub loopback_device : NetDevice
loopback_device = record (Loopback.init 0) { flags = 0x11; interfaces = push new loopback_iface }

abbrev pub tap_device : Env → List (List ℕ) → NetDevice
tap_device env incoming = record (Ethernet.init 1 DriverType.tap) {
  flags = 0x121;
  address = env.hw_addr;
  driver_data = some (record { incoming = incoming; written = []; irq = 37 });
  interfaces = push new tap_iface;
}

abbrev pub gateway : IpRoute
gateway = record { network = 0; netmask = 0; next_hop = 0x010200c0; interface = tap_iface }

abbrev pub loopback_route : IpRoute
loopback_route = record {
  network = 0x0000007f;
  netmask = 0x00ffffff;
  next_hop = 0;
  interface = loopback_iface;
}

abbrev pub boot_routes : IpRoutes
boot_routes = record { entries = record { head = node loopback_route (node gateway nil) } }

abbrev pub booted : Env → List (List ℕ) → NetApp
booted env incoming = record {
  devices = record {
    entries = record { head = node loopback_device (node (tap_device env incoming) nil) };
  };
  protocols = record {
    entries = record {
      head =
          node (record { protocol_type = ProtocolType.arp; input_head = [] })
            (node (record { protocol_type = ProtocolType.ip; input_head = [] }) nil);
    };
  };
  shared = record {
    contexts = record { arp_table = new_table; ip_routes = boot_routes; ip_id_manager = 128 };
    udp_pcbs = UdpBlocks.new_pcbs;
    tcp_pcbs = TcpBlocks.new_pcbs;
    channels = [];
  };
}

new_app-booted :
    (env : Env) (incoming : List (List ℕ))
    → env.tap_file ≡ some incoming
    → new_app env ≡ done (booted env incoming)
unfolding new_app new new_routes new_irq_entry new_protocols open_device new_ip_interface
    ip_addr_to_bytes gateway_route register_interface push Ethernet.tap_open Ethernet.init
    Loopback.init interface_route register_device register_route register_protocol new_protocol
    Ethernet.open_ethernet new_device
new_app-booted env incoming h = rw h refl

-- What a route must be for a destination: the loopback device for 127.0.0.0/24, and for any other
-- the gateway 192.0.2.1 by the TAP device.
abbrev pub boot_route : ℕ → IpRoute
boot_route dst = if bit_and dst 0x00ffffff == 0x0000007f then loopback_route else gateway

masked_zero : (dst : ℕ) → bit_and dst 0 ≡ 0
masked_zero dst = omega (arith, bit_and_low 0 dst)

lookup_ip_route-boot : (dst : ℕ) → lookup_ip_route boot_routes dst ≡ some (boot_route dst)
unfolding lookup_ip_route pick pick_from be_to_le_u32 byte_swap_u32
lookup_ip_route-boot dst = elim (ℕ_discrete (bit_and dst 0x00ffffff) 0x0000007f) [
  | yes e ↦ rw (eq→== (bit_and dst 0x00ffffff) 0x0000007f e, masked_zero dst) refl
  | no ne ↦ rw (ne→== (bit_and dst 0x00ffffff) 0x0000007f ne, masked_zero dst) refl
]

abbrev pub lookups : NetApp → ℕ → Option IpRoute
lookups app dst = lookup_ip_route app.shared.contexts.ip_routes dst

-- Once the TAP device can be opened, `NetApp::new` returns. Every destination then has a route: the
-- loopback device for 127.0.0.0/24, and for any other the gateway 192.0.2.1 by the TAP device; and
-- the Ethernet device is there, up, with the interface 192.0.2.2.
pub new_app_lem :
    (env : Env) (incoming : List (List ℕ))
    → env.tap_file ≡ some incoming
    → (app : NetApp) × (device : NetDevice) × (new_app env ≡ done app)
      × ((dst : ℕ) → lookups app dst ≡ some (boot_route dst))
      × (get_by_type app.devices.entries.head NetDeviceType.ethernet ≡ some device)
      × (is_open device ≡ true)
      × (get_interface device NetInterfaceFamily.ip ≡ some tap_iface)
unfolding get_by_type is_open get_interface Loopback.init Ethernet.init push new
new_app_lem env incoming h = (
  booted env incoming,
  tap_device env incoming,
  new_app-booted env incoming h,
  lookup_ip_route-boot,
  refl,
  refl,
  refl,
)
