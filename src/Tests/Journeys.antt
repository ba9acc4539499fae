-- ===== src/Tests/Journeys.antt =====
-- A datagram of 20 bytes from 192.0.2.1, which knows the hardware address of 192.0.2.2, to a block there.
use rust_user_net.Base.{ℕ, ◌≡◌, refl, List, [], ◌∷◌, none, some, done, true, replicate, arith}
use rust_user_net.Utils.Byte.{be_to_le_u32, byte_swap_u32}
use rust_user_net.Net.{NetInterfaceFamily}
use rust_user_net.Device.Types.{
  NetDevice, DriverData, get_interface, is_open, bytes_eq, device_type_eq,
}
use rust_user_net.Device.Frames.{with_frames}
use rust_user_net.Context.{Host}
use rust_user_net.Channel.{Channels, send}
use rust_user_net.Arp.Table.{new_table, update, get}
use rust_user_net.Arp.Handlers.{arp_resolve}
use rust_user_net.Ip.Route.{lookup_ip_route, pick, pick_from}
use rust_user_net.Ip.Output.{hw_address}
use rust_user_net.Udp.Pcbs.{UdpPcb, UdpPcbState, get_by_host}
use rust_user_net.Udp.Datagram as Datagram
use rust_user_net.Protocols.{Shared}
use rust_user_net.App.{NetApp}
use rust_user_net.App.Signals.{handle_irq, handle_protocol}
use rust_user_net.Network.Sending.{CanSend, numbered, with_written}
use rust_user_net.Network.Arriving.{CanReceive, app_with, raised}
use rust_user_net.Network.Datagrams.{IsWaiting, taken, datagram_arrives}
use rust_user_net.Tests.{
  env, addr_one, addr_two, iface_of, device_of, route_of, host_of, endpoint_one, endpoint_two,
}

abbrev driver : DriverData
driver = record { incoming = []; written = []; irq = 37 }

abbrev tap_device : ℕ → ℕ → NetDevice
tap_device addr mac = with_frames (device_of addr mac) driver []

-- The hardware address of 192.0.2.2.
abbrev mac_two : List ℕ
mac_two = 2 ∷ 0 ∷ 0 ∷ 0 ∷ 0 ∷ 2 ∷ []

abbrev sender : Host
sender = record {
  device = tap_device addr_one 1;
  contexts = record ((host_of addr_one 1).contexts) {
    arp_table = update new_table 4000000 addr_two mac_two;
  };
}

abbrev other : NetDevice
other = record (device_of 0x0100007f 3) {
  irq_entry = record { irq = 36; flags = 0; custom_data = none };
}

abbrev block : UdpPcb
block = record {
  state = UdpPcbState.open_;
  local_endpoint = endpoint_two;
  sender = some 0;
  data_entries = [];
}

abbrev shared : Shared
shared = record {
  contexts = (host_of addr_two 2).contexts;
  udp_pcbs = record { entries = block ∷ [] };
  tcp_pcbs = [];
  channels = record { receiver_alive = true; queue = [] } ∷ [];
}

abbrev woken : Channels
woken = record { receiver_alive = true; queue = true ∷ [] } ∷ []

is_routed :
    lookup_ip_route sender.contexts.ip_routes addr_two ≡ some (route_of 0x000200c0 0x00ffffff 0)
unfolding lookup_ip_route pick pick_from be_to_le_u32 byte_swap_u32
is_routed = refl

is_resolved :
    hw_address env (route_of 0x000200c0 0x00ffffff 0) addr_two addr_two (numbered sender)
    ≡ done (some mac_two, numbered sender)
unfolding hw_address arp_resolve get update new_table device_type_eq
is_resolved = refl

is_up : is_open sender.device ≡ true
unfolding is_open
is_up = refl

can_send :
    CanSend env (route_of 0x000200c0 0x00ffffff 0) addr_two sender (numbered sender) mac_two driver
can_send = record {
  routed = is_routed;
  number = omega arith;
  resolved = is_resolved;
  sized = refl;
  up = is_up;
  ethernet = refl;
  tap = refl;
  opened = refl;
  mac_sized = refl;
}

can_receive : CanReceive env other (device_of addr_two 2) 37 mac_two
unfolding bytes_eq
can_receive = record {
  other_irq = refl;
  own_irq = refl;
  ethernet = refl;
  taken = refl;
  raises = refl;
}

has_interface :
    get_interface (device_of addr_two 2) NetInterfaceFamily.ip ≡ some (iface_of addr_two)
unfolding get_interface
has_interface = refl

is_waiting : IsWaiting shared endpoint_two 0 block woken
unfolding get_by_host send
is_waiting = record { sender = 0; bound = refl; there = refl; attached = refl; woken = refl }

datagram_arrives_example :
    (frame : List ℕ) × (app : NetApp) × (Datagram.output env endpoint_one endpoint_two
        (replicate 20 65)
        sender
      ≡ done (record (numbered sender) { device = with_written sender.device driver frame }))
    × (handle_irq env 37
          (app_with other (with_frames (device_of addr_two 2) driver (frame ∷ [])) [] shared)
        ≡ done app)
    × (handle_protocol env (λ left. 7) app
        ≡ done (
            app_with other
              (raised (with_frames (device_of addr_two 2) driver []))
              []
              (taken shared endpoint_one (replicate 20 65) 0 block woken)))
datagram_arrives_example =
    datagram_arrives env env (λ left. 7) (route_of 0x000200c0 0x00ffffff 0) 0x3930 endpoint_two
      (replicate 20 65) sender (numbered sender) mac_two driver other (device_of addr_two 2) driver
      [] 37 (iface_of addr_two) shared 0 block woken can_send (omega arith) (omega arith)
      (omega arith) (omega arith) (omega arith) (omega arith) (omega arith) can_receive
      has_interface refl is_waiting
