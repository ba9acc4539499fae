-- ===== src/Network/Sending.antt =====
-- A packet on its way out: `output` of src/protocols/ip/mod.rs down to the frame that
-- src/devices/ethernet.rs writes to the TAP device.
use rust_user_net.Base.{
  ℕ, ◌+◌, ◌^◌, ◌≤◌, ◌<◌, ◌≡◌, refl, ap, List, [], ◌∷◌, ◌++◌, Option, none, some, Bool, true, false,
  not, ◌&&◌, err, done, Run, unwrap, ◌>>=◌, ok, ◌==◌, eq→==, lt→ltb, length, arith, if◌then◌else◌,
  ◌∙◌,
}
use rust_user_net.Net.{ProtocolType}
use rust_user_net.Device.Types.{
  Env, NetDevice, NetDeviceType, DriverType, DriverData, is_open, mac_of,
}
use rust_user_net.Device.Ethernet as Ethernet
use rust_user_net.Device.Loopback as Loopback
use rust_user_net.Device.Dispatch as Dispatch
use rust_user_net.Device.Frames.{framed, padded, build_frame_lem}
use rust_user_net.Context.{Host, transmit}
use rust_user_net.Ip.Route.{IpRoute, ip_addr_any, lookup_ip_route}
use rust_user_net.Ip.Header.{IpProtocolType, header_bytes}
use rust_user_net.Ip.Header.Valid.{created, create_ip_header_lem}
use rust_user_net.Ip.Output.{output, output_by, generate_id, hw_address}

-- The host after the next identification number was drawn.
abbrev pub numbered : Host → Host
numbered host = record host {
  contexts = record (host.contexts) { ip_id_manager = host.contexts.ip_id_manager + 1 };
}

abbrev pub next_id : Host → ℕ
next_id host = host.contexts.ip_id_manager + 1

-- Where a packet goes first.
abbrev pub hop : IpRoute → ℕ → ℕ
hop route dst = if not (route.next_hop == ip_addr_any) then route.next_hop else dst

-- The device with a frame written behind the others.
abbrev pub with_written : NetDevice → DriverData → List ℕ → NetDevice
with_written device driver frame = record device {
  driver_data = some (record driver { written = driver.written ++ frame ∷ [] });
}

-- A host that can send to a destination by a route: a number is left, the hardware address is known,
-- which leaves `host'`, and the Ethernet device there is up, with an open TAP driver.
pub record CanSend (env : Env) (route : IpRoute) (dst : ℕ) (host host' : Host) (hw_addr : List ℕ)
    (driver : DriverData) : Type 0 where
  pub routed : lookup_ip_route host.contexts.ip_routes dst ≡ some route
  pub number : next_id host < 2 ^ 16
  pub resolved :
      hw_address env route dst (hop route dst) (numbered host) ≡ done (some hw_addr, host')
  pub sized : length hw_addr ≡ 6
  pub up : is_open host'.device ≡ true
  pub ethernet : host'.device.device_type ≡ NetDeviceType.ethernet
  pub tap : host'.device.driver_type ≡ some DriverType.tap
  pub opened : host'.device.driver_data ≡ some driver
  pub mac_sized : length (mac_of host'.device) ≡ 6

-- The branches for a TAP driver and for an Ethernet device.
by_tap :
    {B : Type 0} (d : Option DriverType) (x y : Run B)
    → d ≡ some DriverType.tap
    → (unwrap d >>= λ d'. elim d' [ DriverType.tap ↦ x | DriverType.pcap ↦ y ]) ≡ x
by_tap d x y e = rw e refl

by_ethernet :
    {B : Type 0} (k : NetDeviceType) (x y : Run B)
    → k ≡ NetDeviceType.ethernet
    → (elim k [ NetDeviceType.loopback ↦ x | NetDeviceType.ethernet ↦ y ]) ≡ y
by_ethernet k x y e = rw e refl

-- `transmit` of the Ethernet driver.
ethernet_transmit-framed :
    (device : NetDevice) (driver : DriverData) (packet hw_addr : List ℕ)
    → device.driver_type ≡ some DriverType.tap
    → device.driver_data ≡ some driver
    → length (mac_of device) ≡ 6
    → length hw_addr ≡ 6
    → length packet ≤ 1500
    → Ethernet.transmit device ProtocolType.ip packet hw_addr
      ≡ done (
        ok tt,
        with_written device driver (framed hw_addr (mac_of device) ProtocolType.ip (padded packet)),
      )
unfolding Ethernet.transmit Ethernet.tap_write_data
ethernet_transmit-framed device driver packet hw_addr tap opened ms hs fits =
    rw (build_frame_lem device ProtocolType.ip packet hw_addr hs ms fits) (
      by_tap device.driver_type _ (done (ok tt, device)) tap
      ∙ ap
          (λ o. unwrap o >>= λ d. done (
            ok (tt {0}),
            with_written device d (framed hw_addr (mac_of device) ProtocolType.ip (padded packet)),
          ))
          opened)

transmit-framed :
    (env : Env) (host : Host) (driver : DriverData) (packet hw_addr : List ℕ)
    → is_open host.device ≡ true
    → host.device.device_type ≡ NetDeviceType.ethernet
    → host.device.driver_type ≡ some DriverType.tap
    → host.device.driver_data ≡ some driver
    → length (mac_of host.device) ≡ 6
    → length hw_addr ≡ 6
    → length packet ≤ 1500
    → transmit env ProtocolType.ip packet hw_addr host
      ≡ done (
        ok tt,
        record host {
          device =
              with_written host.device driver
                (framed hw_addr (mac_of host.device) ProtocolType.ip (padded packet));
        },
      )
unfolding transmit Dispatch.transmit
transmit-framed env host driver packet hw_addr up ethernet tap opened ms hs fits = rw up (
    ap (λ m. m >>= λ r. done (r.0, record host { device = r.1 }))
      (by_ethernet host.device.device_type (Loopback.transmit env host.device packet) _ ethernet
        ∙ ethernet_transmit-framed host.device driver packet hw_addr tap opened ms hs fits))

pub packet_fits : (payload : List ℕ) → length payload ≤ 1480 → length payload ≤ 65515
packet_fits payload fits = omega (arith, fits)

-- The frame of a packet that is sent.
abbrev pub sent_frame :
    (p : IpProtocolType) (route : IpRoute) (dst : ℕ) (host host' : Host) (hw_addr payload : List ℕ)
    → length payload ≤ 1480
    → List ℕ
sent_frame p route dst host host' hw_addr payload fits =
    framed hw_addr (mac_of host'.device) ProtocolType.ip (
      padded (
        header_bytes
          (created p route.interface.unicast dst (next_id host) payload (packet_fits payload fits))
        ++ payload))

own_address : (b c : Bool) → c ≡ true → (not b && not c) ≡ false
own_address true c e = refl
own_address false c e = rw e refl

output_by-CanSend :
    (env : Env) (p : IpProtocolType) (route : IpRoute) (dst : ℕ) (host host' : Host)
    (hw_addr payload : List ℕ) (driver : DriverData) (fits : length payload ≤ 1480)
    (c : CanSend env route dst host host' hw_addr driver)
    → output_by env p payload route.interface.unicast dst route host
      ≡ done (
        ok tt,
        record host' {
          device =
              with_written host'.device driver
                (sent_frame p route dst host host' hw_addr payload fits);
        },
      )
unfolding output_by generate_id
output_by-CanSend env p route dst host host' hw_addr payload driver fits c =
    rw
      (
        own_address (route.interface.unicast == ip_addr_any) _
            (eq→== route.interface.unicast route.interface.unicast refl),
        lt→ltb (next_id host) (2 ^ 16) c.number,
        create_ip_header_lem p route.interface.unicast dst (next_id host) payload
            (packet_fits payload fits),
        c.resolved,
      )
      (transmit-framed env host' driver _ hw_addr c.up c.ethernet c.tap c.opened c.mac_sized c.sized
        (omega arith))

-- From a host that can send, a payload that fits one frame leaves in a frame: the packet with its
-- header, padded, behind what was written to the TAP device before.
pub output-CanSend :
    (env : Env) (p : IpProtocolType) (route : IpRoute) (dst : ℕ) (host host' : Host)
    (hw_addr payload : List ℕ) (driver : DriverData) (fits : length payload ≤ 1480)
    → CanSend env route dst host host' hw_addr driver
    → output env p payload route.interface.unicast dst host
      ≡ done (
        ok tt,
        record host' {
          device =
              with_written host'.device driver
                (sent_frame p route dst host host' hw_addr payload fits);
        },
      )
unfolding output
output-CanSend env p route dst host host' hw_addr payload driver fits c =
    ap
      (λ o. elim o [
        | none ↦ done (err, host)
        | some r ↦ output_by env p payload route.interface.unicast dst r host
      ])
      c.routed
    ∙ output_by-CanSend env p route dst host host' hw_addr payload driver fits c
