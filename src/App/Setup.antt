-- ===== src/App/Setup.antt =====
-- `NetApp::new` of src/app.rs. The arguments of the command line are parsed there too, and dropped.
use rust_user_net.Base.{ℕ, List, [], ◌∷◌, Run, done, ◌>>=◌, ◌>>◌, unwrap_res}
use rust_user_net.Utils.LinkedList.{new as empty_list}
use rust_user_net.Net.{ProtocolType, new_protocols, new_protocol, register as register_protocol}
use rust_user_net.Device.Types.{Env, DriverType, register_interface}
use rust_user_net.Device.Dispatch.{NetDevices, open_device, register as register_device}
use rust_user_net.Device.Loopback
use rust_user_net.Device.Ethernet
use rust_user_net.Ip.Route.{
  new_ip_interface, interface_route, gateway_route, new_routes, register as register_route,
}
use rust_user_net.Ip.Output.{first_id}
use rust_user_net.Arp.Table.{new_table}
use rust_user_net.Udp.Pcbs as UdpBlocks
use rust_user_net.Tcp.Pcbs as TcpBlocks
use rust_user_net.App.{NetApp}

-- "127.0.0.1", "255.255.255.0", "192.0.2.1" and "192.0.2.2".
abbrev pub loopback_ip : List ℕ
loopback_ip = 49 ∷ 50 ∷ 55 ∷ 46 ∷ 48 ∷ 46 ∷ 48 ∷ 46 ∷ 49 ∷ []

abbrev pub netmask_24 : List ℕ
netmask_24 = 50 ∷ 53 ∷ 53 ∷ 46 ∷ 50 ∷ 53 ∷ 53 ∷ 46 ∷ 50 ∷ 53 ∷ 53 ∷ 46 ∷ 48 ∷ []

abbrev pub default_gateway : List ℕ
default_gateway = 49 ∷ 57 ∷ 50 ∷ 46 ∷ 48 ∷ 46 ∷ 50 ∷ 46 ∷ 49 ∷ []

abbrev pub eth_tap_ip : List ℕ
eth_tap_ip = 49 ∷ 57 ∷ 50 ∷ 46 ∷ 48 ∷ 46 ∷ 50 ∷ 46 ∷ 50 ∷ []

abbrev no_devices : NetDevices
no_devices = record { entries = empty_list }

unfoldable pub new_app : Env → Run NetApp
new_app env = do
  (opened, loopback) ← open_device env (Loopback.init 0)
  unwrap_res opened
  loopback_interface ← new_ip_interface loopback_ip netmask_24
  let loopback' = register_interface loopback loopback_interface
  (opened', ethernet) ← open_device env (Ethernet.init 1 DriverType.tap)
  unwrap_res opened'
  ethernet_interface ← new_ip_interface eth_tap_ip netmask_24
  let ethernet' = register_interface ethernet ethernet_interface
  gateway ← gateway_route default_gateway ethernet_interface
  done (record {
    devices = register_device (register_device no_devices loopback') ethernet';
    protocols =
        register_protocol (register_protocol new_protocols (new_protocol ProtocolType.arp))
          (new_protocol ProtocolType.ip);
    shared = record {
      contexts = record {
        arp_table = new_table;
        ip_routes =
            register_route (register_route new_routes (interface_route loopback_interface)) gateway;
        ip_id_manager = first_id;
      };
      udp_pcbs = UdpBlocks.new_pcbs;
      tcp_pcbs = TcpBlocks.new_pcbs;
      channels = [];
    };
  })
