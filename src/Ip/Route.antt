-- ===== src/Ip/Route.antt =====
-- `IPEndpoint`, `IPInterface`, `IPRoute` and `IPRoutes` of src/protocols/ip/mod.rs.
pub mod Longest
use rust_user_net.Base.{
  ℕ, ◌-◌, bit_and, bit_or, List, [], ◌∷◌, Option, none, some, Run, done, ◌>>=◌, unwrap, ltb, ◌==◌,
  if◌then◌else◌,
}
use rust_user_net.Utils.Byte.{be_to_le_u32, le_to_be_u16}
use rust_user_net.Utils.LinkedList.{LinkedList, new, push, iter}
use rust_user_net.Ip.Addr.{ip_addr_to_bytes}
use rust_user_net.Net.{NetInterface, NetInterfaceFamily}

abbrev pub ip_addr_any : ℕ
ip_addr_any = 0x00000000

abbrev pub ip_addr_broadcast : ℕ
ip_addr_broadcast = 0xffffffff

pub record IpEndpoint : Type 0 where
  pub address : ℕ
  pub port : ℕ

-- `IPEndpoint::new`: the port is kept in the order of the network.
unfoldable pub new_endpoint : ℕ → ℕ → IpEndpoint
new_endpoint addr port = record { address = addr; port = le_to_be_u16 port }

pub new_endpoint_from_str : List ℕ → ℕ → Run IpEndpoint
new_endpoint_from_str addr_str port = do
  parsed ← ip_addr_to_bytes addr_str
  address ← unwrap parsed
  done (record { address = address; port = le_to_be_u16 port })

pub record IpInterface : Type 0 where
  pub interface : NetInterface
  pub unicast : ℕ
  pub netmask : ℕ
  pub broadcast : ℕ

-- `IPInterface::new`; `!netmask` is the complement of 32 bits.
unfoldable pub new_ip_interface : List ℕ → List ℕ → Run IpInterface
new_ip_interface unicast_str netmask_str = do
  parsed ← ip_addr_to_bytes unicast_str
  unicast ← unwrap parsed
  parsed_mask ← ip_addr_to_bytes netmask_str
  netmask ← unwrap parsed_mask
  done (record {
    interface = record { family = NetInterfaceFamily.ip };
    unicast = unicast;
    netmask = netmask;
    broadcast = bit_or (bit_and unicast netmask) (0xffffffff - netmask);
  })

pub record IpRoute : Type 0 where
  pub network : ℕ
  pub netmask : ℕ
  pub next_hop : ℕ
  pub interface : IpInterface

unfoldable pub interface_route : IpInterface → IpRoute
interface_route interface = record {
  network = bit_and interface.unicast interface.netmask;
  netmask = interface.netmask;
  next_hop = ip_addr_any;
  interface = interface;
}

unfoldable pub gateway_route : List ℕ → IpInterface → Run IpRoute
gateway_route gateway_ip interface = do
  parsed ← ip_addr_to_bytes gateway_ip
  next_hop ← unwrap parsed
  done (record {
    network = ip_addr_any;
    netmask = ip_addr_any;
    next_hop = next_hop;
    interface = interface;
  })

pub record IpRoutes : Type 0 where
  pub entries : LinkedList IpRoute

unfoldable pub new_routes : IpRoutes
new_routes = record { entries = new }

unfoldable pub register : IpRoutes → IpRoute → IpRoutes
register routes route = record { entries = push routes.entries route }

-- The body of the loop of `lookup_ip_route`.
unfoldable pub pick : ℕ → Option IpRoute → IpRoute → Option IpRoute
pick dst candidate route =
    if bit_and dst route.netmask == route.network then chosen candidate else candidate
  where
    chosen : Option IpRoute → Option IpRoute
    chosen none = some route
    chosen (some best) =
        if ltb (be_to_le_u32 best.netmask) (be_to_le_u32 route.netmask)
        then some route
        else some best

unfoldable pub pick_from : ℕ → Option IpRoute → List IpRoute → Option IpRoute
pick_from dst candidate [] = candidate
pick_from dst candidate (route ∷ routes) = pick_from dst (pick dst candidate route) routes

unfoldable pub lookup_ip_route : IpRoutes → ℕ → Option IpRoute
unfolding pick pick_from
lookup_ip_route routes dst = pick_from dst none (iter routes.entries)

-- `IPRoutes::get_interface`.
unfoldable pub get_interface : IpRoutes → ℕ → Option IpInterface
get_interface routes dst = elim (lookup_ip_route routes dst) [
  | none ↦ none
  | some route ↦ some route.interface
]
