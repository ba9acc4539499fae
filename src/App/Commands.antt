-- ===== src/App/Commands.antt =====
-- The threads of the four commands of src/app.rs: what each does next, and the calls that it makes.
-- Waits and sleeps stand between the calls; what is received is logged only.
use rust_user_net.Base.{
  ℕ, ◌+◌, List, [], ◌∷◌, Option, none, some, Bool, true, false, not, ◌&&◌, Run, done, ◌>>=◌, unwrap,
  ltb, ◌==◌, if◌then◌else◌,
}
use rust_user_net.Device.Types.{Env}
use rust_user_net.Ip.Route.{new_endpoint_from_str}
use rust_user_net.Udp.Socket as Socket
use rust_user_net.Tcp.Commands.{rfc793_open_start, attach}
use rust_user_net.App.{NetApp, on_ethernet, world_with, put_world, ethernet_device}
use rust_user_net.App.Setup.{eth_tap_ip}

-- `replace(pattern, to)` for a pattern of two characters.
unfoldable pub replace_pair : ℕ → ℕ → ℕ → List ℕ → List ℕ
replace_pair a b to [] = []
replace_pair a b to (x ∷ []) = x ∷ []
replace_pair a b to (x ∷ y ∷ text) =
    let here = to ∷ replace_pair a b to text in
    let further = x ∷ replace_pair a b to (y ∷ text) in
    if (x == a) && (y == b) then here else further

-- The request: `\r` and `\n` that were typed as two characters become one.
unfoldable pub request_bytes : List ℕ → List ℕ
unfolding replace_pair
request_bytes text = replace_pair 92 110 10 (replace_pair 92 114 13 text)

-- "0.0.0.0".
abbrev pub any_ip : List ℕ
any_ip = 48 ∷ 46 ∷ 48 ∷ 46 ∷ 48 ∷ 46 ∷ 48 ∷ []

-- What the thread of a TCP command does next.
pub data TcpAction : Type 0 where
  ends opens : TcpAction
  sends : ℕ → List ℕ → TcpAction
  receives : ℕ → ℕ → TcpAction

-- `sock_opt` and `request_sent`.
pub record TcpClient : Type 0 where
  pub sock : Option ℕ
  pub request_sent : Bool

abbrev pub receive_size : ℕ
receive_size = 2048

-- What `tcp_send_command` keeps of the result of its open, and after its send.
abbrev pub after_open : Option ℕ → TcpClient → TcpClient
after_open sock client = record client { sock = sock }

abbrev pub after_send : TcpClient → TcpClient
after_send client = record client { request_sent = true }

-- The end of a round of `tcp_send_command`, behind its send.
unfoldable pub send_then_receive : TcpClient → Run TcpAction
send_then_receive client = do sock ← unwrap client.sock; done (TcpAction.receives sock receive_size)

-- A round behind its open, whose result is unwrapped.
unfoldable pub send_connected : List ℕ → TcpClient → Run TcpAction
unfolding send_then_receive request_bytes
send_connected text client =
    if not client.request_sent
    then (do sock ← unwrap client.sock; done (TcpAction.sends sock (request_bytes text)))
    else send_then_receive client

-- A round of its loop from the start; `told` is whether a message to end has come.
unfoldable pub send_round_start : Bool → List ℕ → TcpClient → Run TcpAction
unfolding send_connected
send_round_start told text client =
    if told
    then done TcpAction.ends
    else elim client.sock [ none ↦ done TcpAction.opens | some _ ↦ send_connected text client ]

-- `tcp_receive_command` behind its connection, and a round of its loop from the start.
unfoldable pub receive_connected : Option ℕ → TcpAction
receive_connected none = TcpAction.ends
receive_connected (some sock) = TcpAction.receives sock receive_size

unfoldable pub receive_round_start : Bool → Option ℕ → TcpAction
unfolding receive_connected
receive_round_start told sock =
    if told
    then TcpAction.ends
    else elim sock [ none ↦ TcpAction.opens | some soc ↦ receive_connected (some soc) ]

-- The calls that open a connection, up to their wait: the block and its receiver.
unfoldable pub open_to : Env → ℕ → List ℕ → ℕ → NetApp → Run ((ℕ × ℕ) × NetApp)
open_to env random target_ip target_port app = do
  local ← new_endpoint_from_str eth_tap_ip 7
  remote ← new_endpoint_from_str target_ip target_port
  on_ethernet
      (λ w. rfc793_open_start env random local (some remote) true w >>= λ r. done ((r.0, r.1), r.2))
      app

unfoldable pub open_passive : Env → ℕ → NetApp → Run ((ℕ × ℕ) × NetApp)
open_passive env random app = do
  local ← new_endpoint_from_str any_ip 7
  on_ethernet (λ w. rfc793_open_start env random local none false w >>= λ r. done ((r.0, r.1), r.2))
      app

-- The start of `tcp::send` and of `tcp::receive`: the receiver that they wait at.
unfoldable pub attach_to : ℕ → NetApp → Run (ℕ × NetApp)
attach_to sock app = on_ethernet (attach sock) app

-- What the thread of a UDP command does next, after a round.
pub data UdpAction : Type 0 where
  ends sent : UdpAction
  receives : ℕ → UdpAction

-- `soc_opt` and `sent_count`.
pub record UdpClient : Type 0 where
  pub socket : Option ℕ
  pub sent_count : ℕ

-- A socket of the commands: the first free block, bound to port 7.
unfoldable pub open_bound : NetApp → Run (ℕ × NetApp)
open_bound app = do
  (soc, pcbs) ← Socket.open_socket app.shared.udp_pcbs
  local ← new_endpoint_from_str any_ip 7
  pcbs' ← Socket.bind pcbs soc local
  done (soc, record app { shared = record (app.shared) { udp_pcbs = pcbs' } })

unfoldable pub socket_of : Option ℕ → NetApp → Run (ℕ × NetApp)
unfolding open_bound
socket_of none app = open_bound app
socket_of (some soc) app = done (soc, app)

-- `udp::send_to` on the Ethernet device.
unfoldable pub send_datagram : Env → ℕ → List ℕ → List ℕ → ℕ → NetApp → Run NetApp
unfolding request_bytes
send_datagram env soc text target_ip target_port app = do
  remote ← new_endpoint_from_str target_ip target_port
  device ← ethernet_device app
  let w = world_with device app.shared
  host ← Socket.send_to env app.shared.udp_pcbs soc (request_bytes text) remote w.host
  done (put_world (record w { host = host }) app)

-- A round of `udp_send_command`: the data is sent twice, then datagrams are received.
unfoldable pub udp_send_round :
    Env → Bool → List ℕ → ℕ → List ℕ → UdpClient → NetApp → Run (UdpAction × UdpClient × NetApp)
unfolding socket_of send_datagram
udp_send_round env told target_ip target_port text client app =
    if told then done (UdpAction.ends, client, app) else do
      (soc, app') ← socket_of client.socket app
      let client' : UdpClient = record { socket = some soc; sent_count = client.sent_count }
      if ltb client.sent_count 2
          then (do
            app'' ← send_datagram env soc text target_ip target_port app'
            done (UdpAction.sent, record client' { sent_count = client.sent_count + 1 }, app''))
          else done (UdpAction.receives soc, client', app')

-- A round of `udp_receive_command`.
unfoldable pub udp_receive_round : Bool → Option ℕ → NetApp → Run (UdpAction × Option ℕ × NetApp)
unfolding socket_of
udp_receive_round told socket app =
    if told
    then done (UdpAction.ends, socket, app)
    else do (soc, app') ← socket_of socket app; done (UdpAction.receives soc, some soc, app')
