-- ===== src/Tests.antt =====
-- Examples at concrete inputs. The data: two hosts of one network, 192.0.2.1 and 192.0.2.2.
mod Connections
mod Packets
mod Utilities
mod Systems
mod Tables
mod Handshakes
mod Locking
mod Journeys
mod Transfers
use rust_user_net.Base.{ℕ, List, [], ◌∷◌, none, some, true, replicate}
use rust_user_net.Utils.LinkedList.{nil, node}
use rust_user_net.Net.{NetInterfaceFamily}
use rust_user_net.Ip.Route.{IpEndpoint, IpInterface, IpRoute, IpRoutes}
use rust_user_net.Device.Types.{Env, NetDevice, NetDeviceType, DriverType}
use rust_user_net.Context.{Host}
use rust_user_net.Arp.Table.{new_table}

abbrev pub env : Env
env = record {
  now = 5000000;
  raise_ok = λ signal. true;
  tap_file = none;
  hw_addr = 2 ∷ 0 ∷ 0 ∷ 0 ∷ 0 ∷ 1 ∷ [];
}

abbrev pub addr_one : ℕ
addr_one = 0x010200c0

abbrev pub addr_two : ℕ
addr_two = 0x020200c0

abbrev pub iface_of : ℕ → IpInterface
iface_of addr = record {
  interface = record { family = NetInterfaceFamily.ip };
  unicast = addr;
  netmask = 0x00ffffff;
  broadcast = 0xff0200c0;
}

abbrev pub device_of : ℕ → ℕ → NetDevice
device_of addr mac = record {
  index = 0;
  device_type = NetDeviceType.ethernet;
  name = [];
  mtu = 1500;
  flags = 0x121;
  header_len = 14;
  address_len = 6;
  address = 2 ∷ 0 ∷ 0 ∷ 0 ∷ 0 ∷ mac ∷ replicate 8 0;
  broadcast = replicate 14 0xff;
  irq_entry = record { irq = 37; flags = 0; custom_data = none };
  interfaces = record { head = node (iface_of addr) nil };
  driver_type = some DriverType.pcap;
  driver_data = none;
  raised = [];
}

abbrev pub route_of : ℕ → ℕ → ℕ → IpRoute
route_of network netmask next_hop = record {
  network = network;
  netmask = netmask;
  next_hop = next_hop;
  interface = iface_of addr_one;
}

abbrev pub routes : IpRoutes
routes = record {
  entries = record {
    head = node (route_of 0 0 addr_two) (node (route_of 0x000200c0 0x00ffffff 0) nil);
  };
}

abbrev pub host_of : ℕ → ℕ → Host
host_of addr mac = record {
  device = device_of addr mac;
  contexts = record { arp_table = new_table; ip_routes = routes; ip_id_manager = 128 };
}

abbrev pub text : List ℕ
text = 104 ∷ 105 ∷ 33 ∷ []

abbrev pub endpoint_one : IpEndpoint
endpoint_one = record { address = addr_one; port = 0x3930 }

abbrev pub endpoint_two : IpEndpoint
endpoint_two = record { address = addr_two; port = 0x5000 }
