-- ===== src/Network/Datagrams.antt =====
-- A datagram of src/protocols/ip/udp.rs from the `output` of one program to a control block of another.
use rust_user_net.Base.{
  ℕ, ◌+◌, ◌-◌, ◌^◌, ◌≤◌, ◌<◌, ◌≡◌, refl, ap, List, [], ◌∷◌, ◌++◌, append-nil, Option, some, true,
  Run, done, ◌>>=◌, unwrap, Res, ok, length, replicate, get_elem?, set, All, arith, ◌∙◌,
}
use rust_user_net.Utils.Cksum.Sum.{IsByte}
use rust_user_net.Net.{NetInterfaceFamily, ProtocolType}
use rust_user_net.Channel.{Channels, send}
use rust_user_net.Device.Types.{Env, NetDevice, DriverData, get_interface, mac_of}
use rust_user_net.Device.Frames.{padded, framed, with_frames}
use rust_user_net.Context.{Host}
use rust_user_net.Ip.Route.{IpEndpoint, IpRoute, IpInterface}
use rust_user_net.Ip.Header.{IpProtocolType}
use rust_user_net.Ip.Input as IpInput
use rust_user_net.Ip.Delivery.{packet, input-packet}
use rust_user_net.Udp.Pcbs.{UdpPcb, UdpPcbs, get_by_host}
use rust_user_net.Udp.Datagram as Datagram
use rust_user_net.Udp.Datagram.{accept}
use rust_user_net.Udp.Delivery.{IsDatagram, datagram-IsDatagram, input-IsDatagram, handed}
use rust_user_net.Protocols.{Shared, stack_of}
use rust_user_net.App.{NetApp}
use rust_user_net.App.Signals.{handle_irq, handle_protocol}
use rust_user_net.Network.Sending.{
  CanSend, next_id, packet_fits, with_written, sent_frame, output-CanSend,
}
use rust_user_net.Network.Arriving.{
  CanReceive, app_with, raised, entry, handle_irq-framed, handle_protocol-entry,
}

padded_long : (payload : List ℕ) → 46 ≤ length payload → padded payload ≡ payload
padded_long payload h =
    let nothing : 46 - length payload ≡ 0 = omega (arith, h) in
    ap (λ n. payload ++ replicate n 0) nothing ∙ append-nil payload

by_some :
    {A B : Type 0} (o : Option A) (a : A) (f : A → Run B) → o ≡ some a → (unwrap o >>= f) ≡ f a
by_some o a f e = rw e refl

-- A block that waits for datagrams at an endpoint.
pub record IsWaiting (shared : Shared) (dst : IpEndpoint) (pcb_id : ℕ) (pcb : UdpPcb)
    (channels' : Channels) : Type 0 where
  pub sender : ℕ
  pub bound : get_by_host shared.udp_pcbs dst.address dst.port ≡ some pcb_id
  pub there : get_elem? shared.udp_pcbs.entries pcb_id ≡ some pcb
  pub attached : pcb.sender ≡ some sender
  pub woken : send shared.channels sender true ≡ (true, channels')

-- What the program shares after the block took the data.
abbrev pub taken : Shared → IpEndpoint → List ℕ → ℕ → UdpPcb → Channels → Shared
taken shared src udp_data pcb_id pcb channels' = record shared {
  udp_pcbs = record {
    entries = set shared.udp_pcbs.entries pcb_id (record pcb {
      data_entries =
          pcb.data_entries
          ++ record { remote_endpoint = src; len = length udp_data; payload = udp_data } ∷ [];
    });
  };
  channels = channels';
}

handed-IsWaiting :
    (shared : Shared) (src dst : IpEndpoint) (udp_data : List ℕ) (pcb_id : ℕ) (pcb : UdpPcb)
    (channels' : Channels)
    → IsWaiting shared dst pcb_id pcb channels'
    → handed src dst udp_data shared.udp_pcbs shared.channels
      ≡ done (ok tt, (taken shared src udp_data pcb_id pcb channels').udp_pcbs, channels')
unfolding accept
handed-IsWaiting shared src dst udp_data pcb_id pcb channels' w =
    rw (handed, w.bound, accept, w.there)
      (by_some pcb.sender w.sender _ w.attached ∙ rw w.woken refl)

-- The packet of a datagram at `input`.
input-IsWaiting :
    (env : Env) (random : ℕ) (reader : NetDevice) (iface : IpInterface) (shared : Shared)
    (src dst : IpEndpoint) (udp_data bytes : List ℕ) (id pcb_id : ℕ) (pcb : UdpPcb)
    (channels' : Channels) (fits : length bytes ≤ 65515)
    → length udp_data ≤ 65507
    → IsDatagram src dst udp_data bytes
    → id < 2 ^ 16
    → src.address < 2 ^ 32
    → dst.address < 2 ^ 32
    → get_interface reader NetInterfaceFamily.ip ≡ some iface
    → iface.unicast ≡ dst.address
    → IsWaiting shared dst pcb_id pcb channels'
    → IpInput.input env
        (packet IpProtocolType.udp src.address dst.address id bytes fits)
        (20 + length bytes)
        random
        (stack_of reader shared)
      ≡ done (ok tt, stack_of reader (taken shared src udp_data pcb_id pcb channels'))
unfolding IpInput.dispatch
input-IsWaiting env random reader iface shared src dst udp_data bytes id pcb_id pcb channels' fits
      small d hi hs hd found unicast w =
    input-packet IpProtocolType.udp src.address dst.address id bytes fits env iface random
      (stack_of reader shared) hi hs hd found unicast
    ∙ ap
        (λ m. m >>= λ (r : Res (Unit {0}) × UdpPcbs × Channels).
          done (r.0, record (stack_of reader shared) { udp_pcbs = r.1; channels = r.2 }))
        (input-IsDatagram src dst udp_data bytes shared.udp_pcbs shared.channels small d
          ∙ handed-IsWaiting shared src dst udp_data pcb_id pcb channels' w)

-- The interrupt and the handling of the packet that a datagram stands in.
arrives :
    (env : Env) (random : ℕ → ℕ) (other reader : NetDevice) (driver : DriverData)
    (frames : List (List ℕ)) (hw_addr mac : List ℕ) (irq : ℕ) (iface : IpInterface)
    (shared : Shared) (src dst : IpEndpoint) (udp_data bytes : List ℕ) (id pcb_id : ℕ)
    (pcb : UdpPcb) (channels' : Channels) (fits : length bytes ≤ 65515)
    → length hw_addr ≡ 6
    → length mac ≡ 6
    → 18 ≤ length udp_data
    → length udp_data ≤ 1472
    → IsDatagram src dst udp_data bytes
    → id < 2 ^ 16
    → src.address < 2 ^ 32
    → dst.address < 2 ^ 32
    → CanReceive env other reader irq hw_addr
    → get_interface reader NetInterfaceFamily.ip ≡ some iface
    → iface.unicast ≡ dst.address
    → IsWaiting shared dst pcb_id pcb channels'
    → (app : NetApp) × (handle_irq env irq (
          app_with other
            (with_frames reader driver (
              framed hw_addr mac ProtocolType.ip
                (padded (packet IpProtocolType.udp src.address dst.address id bytes fits))
              ∷ frames))
            []
            shared)
        ≡ done app)
      × (handle_protocol env random app
          ≡ done (
              app_with other
                (raised (with_frames reader driver frames))
                []
                (taken shared src udp_data pcb_id pcb channels')))
unfolding get_interface
arrives env random other reader driver frames hw_addr mac irq iface shared src dst udp_data bytes id
      pcb_id pcb channels' fits hh hm least most d hi hs hd c found unicast w =
    let p = packet IpProtocolType.udp src.address dst.address id bytes fits in
    let whole = padded_long p (omega (arith, d.sized)) in
    (
      app_with other (raised (with_frames reader driver frames)) (entry irq p ∷ []) shared,
      rw whole (
          handle_irq-framed env other reader driver frames hw_addr mac p irq shared hh hm
            (omega (arith, d.sized)) c),
      handle_protocol-entry env random other (raised (with_frames reader driver frames)) p irq
          shared _ c.other_irq c.own_irq
          (ap
              (λ n.
                IpInput.input env p n (random 0)
                  (stack_of (raised (with_frames reader driver frames)) shared))
              (omega (arith, d.sized))
            ∙ input-IsWaiting env (random 0) (raised (with_frames reader driver frames)) iface
                shared src dst udp_data bytes id pcb_id pcb channels' fits (omega arith) d hi hs hd
                found unicast w),
    )

-- A datagram of 18 to 1472 bytes of data, with ports and addresses of their widths, from a host with
-- a route, a number for the packet, a known hardware address and an Ethernet device on the TAP
-- driver that is up, leaves in one frame, behind what was written before. Let the frame be the next
-- one of a program as `NetApp::new` lays it out, with two devices of different interrupts, empty
-- queues and this hardware and IP address, where SIGUSR1 can be raised and a block with a reader
-- waits at the destination. Then the interrupt and the handling of packets behind it return, the
-- block has the data and the sender's endpoint behind what it held, its reader is woken, the frame
-- and the packet are taken, and the rest is as it was.
pub datagram_arrives :
    (env env' : Env) (random : ℕ → ℕ) (route : IpRoute) (port : ℕ) (dst : IpEndpoint)
    (udp_data : List ℕ) (host host' : Host) (hw_addr : List ℕ) (sent : DriverData)
    (other reader : NetDevice) (driver : DriverData) (frames : List (List ℕ)) (irq : ℕ)
    (iface : IpInterface) (shared : Shared) (pcb_id : ℕ) (pcb : UdpPcb) (channels' : Channels)
    → CanSend env route dst.address host host' hw_addr sent
    → port < 2 ^ 16
    → dst.port < 2 ^ 16
    → route.interface.unicast < 2 ^ 32
    → dst.address < 2 ^ 32
    → 18 ≤ length udp_data
    → length udp_data ≤ 1472
    → All IsByte udp_data
    → CanReceive env' other reader irq hw_addr
    → get_interface reader NetInterfaceFamily.ip ≡ some iface
    → iface.unicast ≡ dst.address
    → IsWaiting shared dst pcb_id pcb channels'
    → (frame : List ℕ) × (app : NetApp) × (Datagram.output env
          (record { address = route.interface.unicast; port = port })
          dst
          udp_data
          host
        ≡ done (record host' { device = with_written host'.device sent frame }))
      × (handle_irq env' irq (app_with other (with_frames reader driver (frame ∷ frames)) [] shared)
          ≡ done app)
      × (handle_protocol env' random app
          ≡ done (
              app_with other (raised (with_frames reader driver frames)) [] (
                taken shared
                  (record { address = route.interface.unicast; port = port })
                  udp_data
                  pcb_id
                  pcb
                  channels')))
unfolding Datagram.output
datagram_arrives env env' random route port dst udp_data host host' hw_addr sent other reader driver
      frames irq iface shared pcb_id pcb channels' can hp hdp hs hd least most small c found unicast
      w =
    let src : IpEndpoint = record { address = route.interface.unicast; port = port } in
    let (bytes, made, d) = datagram-IsDatagram src dst udp_data hp hdp (omega arith) small in
    let fits : length bytes ≤ 1480 = omega (arith, d.sized) in
    let (app, interrupted, handled) =
      arrives env' random other reader driver frames hw_addr (mac_of host'.device) irq iface shared
        src dst udp_data bytes (next_id host) pcb_id pcb channels' (packet_fits bytes fits)
        can.sized can.mac_sized least most d can.number hs hd c found unicast w in
    (
      sent_frame IpProtocolType.udp route dst.address host host' hw_addr bytes fits,
      app,
      rw
          (
            made,
            output-CanSend env IpProtocolType.udp route dst.address host host' hw_addr bytes sent
                fits can,
          )
          refl,
      interrupted,
      handled,
    )
