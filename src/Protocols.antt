-- ===== src/Protocols.antt =====
-- The queues of src/protocols/mod.rs: `NetProtocol` and `NetProtocols` with their input handlers.
pub mod Order
use rust_user_net.Base.{
  ℕ, ◌≡◌, refl, List, [], ◌∷◌, Run, done, ◌>>=◌, ◌>>◌, unwrap, length, ap, map, unwrap_res, ◌==◌,
  if◌then◌else◌, Returns, Returns-bind, Returns-then,
}
use rust_user_net.Utils.LinkedList.{Link, nil, node, iter_link}
use rust_user_net.Net.{ProtocolType, ProtocolData, NetProtocol}
use rust_user_net.Device.Types.{Env, NetDevice}
use rust_user_net.Arp.Handlers
use rust_user_net.Ip.Input.{Stack}
use rust_user_net.Ip.Input
use rust_user_net.Context.{ProtocolContexts}
use rust_user_net.Udp.Pcbs.{UdpPcbs}
use rust_user_net.Tcp.Types.{TcpPcb}
use rust_user_net.Channel.{Channels}

-- `NetProtocol::input`: an error of the handler is a panic. The device is that of the stack's host.
unfoldable pub input : Env → ProtocolType → List ℕ → ℕ → ℕ → Stack → Run Stack
input env ProtocolType.arp bytes len random s = do
  (res, host) ← Handlers.input env bytes s.host
  unwrap_res res
  done (record s { host = host })
input env ProtocolType.ip bytes len random s = do
  (res, s') ← Input.input env bytes len random s
  unwrap_res res
  done s'
input env ProtocolType.unknown bytes len random s = done s

-- What all devices share: the contexts and the control blocks, with their channels.
pub record Shared : Type 0 where
  pub contexts : ProtocolContexts
  pub udp_pcbs : UdpPcbs
  pub tcp_pcbs : List TcpPcb
  pub channels : Channels

-- A device is lent to a handler, and given back.
abbrev pub stack_of : NetDevice → Shared → Stack
stack_of device shared = record {
  host = record { device = device; contexts = shared.contexts };
  udp_pcbs = shared.udp_pcbs;
  tcp_pcbs = shared.tcp_pcbs;
  channels = shared.channels;
}

abbrev pub shared_of : Stack → Shared
shared_of s = record {
  contexts = s.host.contexts;
  udp_pcbs = s.udp_pcbs;
  tcp_pcbs = s.tcp_pcbs;
  channels = s.channels;
}

-- The loop over the devices: the first one with the interrupt takes the data.
unfoldable pub input_at :
    Env
    → ProtocolType
    → List ℕ
    → ℕ
    → ℕ
    → ℕ
    → Link NetDevice
    → Shared
    → Run (Link NetDevice × Shared)
input_at env t bytes len random irq nil shared = done (nil, shared)
input_at env t bytes len random irq (node device devices) shared =
    let rest = input_at env t bytes len random irq devices shared in
    if device.irq_entry.irq == irq
    then (do
      s ← input env t bytes len random (stack_of device shared)
      done (node s.host.device devices, shared_of s))
    else (do (devices', shared') ← rest; done (node device devices', shared'))

-- `NetProtocol::handle_input`: the queue is popped until it is empty. `random` has the numbers that
-- the handlers draw, by the number of entries that are left.
unfoldable pub handle_queue :
    Env
    → ProtocolType
    → (ℕ → ℕ)
    → List ProtocolData
    → Link NetDevice
    → Shared
    → Run (Link NetDevice × Shared)
unfolding input_at
handle_queue env t random [] devices shared = done (devices, shared)
handle_queue env t random (entry ∷ queue) devices shared = do
  bytes ← unwrap entry.payload
  (devices', shared') ←
      input_at env t bytes entry.len (random (length queue)) entry.irq devices shared
  handle_queue env t random queue devices' shared'

-- `NetProtocols::handle_data`.
unfoldable pub handle_data :
    Env
    → (ℕ → ℕ)
    → Link NetProtocol
    → Link NetDevice
    → Shared
    → Run (Link NetProtocol × Link NetDevice × Shared)
unfolding handle_queue
handle_data env random nil devices shared = done (nil, devices, shared)
handle_data env random (node protocol protocols) devices shared = do
  (devices', shared') ←
      handle_queue env protocol.protocol_type random protocol.input_head devices shared
  (protocols', devices'', shared'') ← handle_data env random protocols devices' shared'
  done (node (record protocol { input_head = [] }) protocols', devices'', shared'')
