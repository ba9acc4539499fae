-- ===== src/Ip/Output.antt =====
-- `output` of src/protocols/ip/mod.rs, with the identification numbers of `IPHeaderIdManager`.
use rust_user_net.Base.{
  ℕ, ◌+◌, ◌^◌, bit_and, List, ◌++◌, Option, none, some, not, ◌&&◌, ◌||◌, Run, done, ◌>>=◌, ◌>>◌,
  check, unwrap, Res, ok, err, ltb, ◌==◌, if◌then◌else◌, length, take, replicate,
}
use rust_user_net.Net.{ProtocolType}
use rust_user_net.Ip.Route.{IpRoute, ip_addr_any, ip_addr_broadcast, lookup_ip_route}
use rust_user_net.Ip.Header.{IpProtocolType, header_bytes, create_ip_header}
use rust_user_net.Device.Types.{Env, device_flag_need_arp, eth_addr_len}
use rust_user_net.Arp.Handlers.{arp_resolve}
use rust_user_net.Context.{Host, transmit}

-- `IPHeaderIdManager::new`.
abbrev pub first_id : ℕ
first_id = 128

-- `generate_id`: the increment of a `u16` is checked.
unfoldable pub generate_id : Host → Run (ℕ × Host)
generate_id host = do
  let id = host.contexts.ip_id_manager + 1
  check (ltb id (2 ^ 16))
  done (id, record host { contexts = record (host.contexts) { ip_id_manager = id } })

-- `slice.try_into()` at an array of `n` bytes.
abbrev pub to_array : ℕ → List ℕ → Option (List ℕ)
to_array n slice = if length slice == n then some slice else none

-- The hardware address of the frame; `none` when the packet waits for an answer to a request.
unfoldable pub hw_address : Env → IpRoute → ℕ → ℕ → Host → Run (Option (List ℕ) × Host)
hw_address env route dst next_hop host =
    if ltb 0 (bit_and host.device.flags device_flag_need_arp)
    then if dst == route.interface.broadcast || dst == ip_addr_broadcast
      then (do
        hw_addr ← unwrap (to_array eth_addr_len (take (eth_addr_len + 1) host.device.broadcast))
        done (some hw_addr, host))
      else (do
        (arp, host') ← arp_resolve env route.interface next_hop host
        elim arp [
          | ok result ↦ done (result, host')
          | err ↦ done (some (replicate eth_addr_len 0), host')
        ])
    else done (some (replicate eth_addr_len 0), host)

-- From the route that was found on.
unfoldable pub output_by :
    Env → IpProtocolType → List ℕ → ℕ → ℕ → IpRoute → Host → Run (Res (Unit {0}) × Host)
output_by env ip_proto payload src dst route host =
    if not (src == ip_addr_any) && not (src == route.interface.unicast)
    then done (err, host)
    else do
      let next_hop = if not (route.next_hop == ip_addr_any) then route.next_hop else dst
      (id, host₁) ← generate_id host
      header ← create_ip_header ip_proto route.interface.unicast dst payload id
      (hw_addr, host₂) ← hw_address env route dst next_hop host₁
      elim hw_addr [
        | none ↦ done (ok tt, host₂)
        | some addr ↦ transmit env ProtocolType.ip (header_bytes header ++ payload) addr host₂
      ]

unfoldable pub output : Env → IpProtocolType → List ℕ → ℕ → ℕ → Host → Run (Res (Unit {0}) × Host)
output env ip_proto payload src dst host = elim (lookup_ip_route host.contexts.ip_routes dst) [
  | none ↦ done (err, host)
  | some route ↦ output_by env ip_proto payload src dst route host
]
