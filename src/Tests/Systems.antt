-- ===== src/Tests/Systems.antt =====
-- Examples for the parts together: the program at its start, its signals, frames between two
-- devices, and the calls of UDP and TCP over time.
use rust_user_net.Utils.Byte.{be_to_le_u16}
use rust_user_net.Base.{
  ℕ, ◌≡◌, ◌++◌, refl, List, [], ◌∷◌, none, some, Bool, true, false, done, ok, ◌>>=◌, ◌==◌, length,
  replicate, arith, Ensures, ◌*◌, ◌/◌, ◌%◌, ◌+◌,
}
use rust_user_net.Channel.{Channels, send, drop_receiver, new_channel}
use rust_user_net.Net.{ProtocolType, NetInterfaceFamily}
use rust_user_net.Device.Types.{Env, NetDevice, NetDeviceType, DriverData, get_interface, is_open}
use rust_user_net.Device.Dispatch.{get_by_type}
use rust_user_net.Device.Ethernet.{build_frame, read_data}
use rust_user_net.Device.Frames.{with_frames, taken_if, takes, padded, read_data-build_frame}
use rust_user_net.Utils.LinkedList.{nil, node}
use rust_user_net.Net.{NetProtocols, protocol_eq}
use rust_user_net.Device.Types.{bytes_eq}
use rust_user_net.Device.Dispatch.{isr}
use rust_user_net.Device.Interrupts.{queue_of, with_entry, entry_of, isr-build_frame}
use rust_user_net.Ip.Input as IpInput
use rust_user_net.Ip.Errors.{Untouched, input-Untouched}
use rust_user_net.Ip.Ports.{IsFree, IsChosen}
use rust_user_net.Udp.Pcbs as UdpBlocks
use rust_user_net.Udp.Pcbs.{UdpPcb, UdpPcbs, UdpPcbState, UdpDataEntry, is_endpoint_used}
use rust_user_net.Udp.Datagram.{accept}
use rust_user_net.Udp.Socket.{receive_wake, source_endpoint}
use rust_user_net.Udp.Mailbox.{mailbox}
use rust_user_net.Udp.Mailbox.Fifo.{History, History-fifo, starts, accepts, receives}
use rust_user_net.Udp.Ports.{source_endpoint-IsFree}
use rust_user_net.Tcp.Types.{TcpPcbState, TcpPcbMode, new_pcb}
use rust_user_net.Tcp.Pcbs as TcpBlocks
use rust_user_net.Tcp.Pcbs.{select}
use rust_user_net.Tcp.World.{World}
use rust_user_net.Tcp.Sending.{SendState, send_pass}
use rust_user_net.Tcp.Passes.{Completes, send_pass-Completes}
use rust_user_net.Tcp.Commands.{is_taken, connect_endpoint, rfc793_open_start}
use rust_user_net.Tcp.Ports.{connect_endpoint-IsChosen}
use rust_user_net.Tcp.Live.{AllLive}
use rust_user_net.Tcp.System as System
use rust_user_net.Tcp.System.{Reach, Reach-AllLive}
use rust_user_net.App.{NetApp}
use rust_user_net.App.Setup.{new_app}
use rust_user_net.App.Boot.{booted, boot_route, lookups, tap_iface, new_app_lem}
use rust_user_net.App.Signals.{Signal, on_signals}
use rust_user_net.App.Order.{on_signals-terminated}
use rust_user_net.Tests.{
  env, addr_one, addr_two, device_of, host_of, text, endpoint_one, endpoint_two,
}

abbrev tap_env : Env
tap_env = record env { tap_file = some [] }

new_app_lem_example :
    (app : NetApp) × (device : NetDevice) × (new_app tap_env ≡ done app)
    × ((dst : ℕ) → lookups app dst ≡ some (boot_route dst))
    × (get_by_type app.devices.entries.head NetDeviceType.ethernet ≡ some device)
    × (is_open device ≡ true)
    × (get_interface device NetInterfaceFamily.ip ≡ some tap_iface)
new_app_lem_example = new_app_lem tap_env [] refl

abbrev signal_of : ℕ → Signal
signal_of number = record { env = env; random = λ left. left; number = number }

-- SIGTERM.
abbrev is_term : ℕ → Bool
is_term number = number == 15

on_signals-terminated_example :
    on_signals is_term (signal_of 10 ∷ [] ++ signal_of 15 ∷ signal_of 36 ∷ []) (booted tap_env [])
    ≡ on_signals is_term (signal_of 10 ∷ []) (booted tap_env []) >>= λ r. done (false, r.1)
on_signals-terminated_example =
    on_signals-terminated is_term (signal_of 15) (signal_of 10 ∷ []) (signal_of 36 ∷ [])
      (booted tap_env []) refl refl refl

abbrev driver : DriverData
driver = record { incoming = []; written = []; irq = 37 }

read_data-build_frame_example :
    (frame : List ℕ) × (build_frame
        (device_of addr_one 1)
        ProtocolType.ip
        text
        (2 ∷ 0 ∷ 0 ∷ 0 ∷ 0 ∷ 2 ∷ [])
      ≡ done frame)
    × (read_data (with_frames (device_of addr_two 2) driver (frame ∷ []))
        ≡ done (
          taken_if
              (takes (device_of addr_two 2) (2 ∷ 0 ∷ 0 ∷ 0 ∷ 0 ∷ 2 ∷ []))
              (ProtocolType.ip, padded text, length (padded text)),
          with_frames (device_of addr_two 2) driver [],
        ))
read_data-build_frame_example =
    read_data-build_frame (device_of addr_one 1) (device_of addr_two 2) driver [] ProtocolType.ip
      text (2 ∷ 0 ∷ 0 ∷ 0 ∷ 0 ∷ 2 ∷ []) refl refl (omega arith)

abbrev stack : IpInput.Stack
stack = record {
  host = host_of addr_two 2;
  udp_pcbs = UdpBlocks.new_pcbs;
  tcp_pcbs = TcpBlocks.new_pcbs;
  channels = [];
}

-- A header with a wrong checksum.
input-Untouched_example :
    Ensures (Untouched stack) (IpInput.input env (69 ∷ replicate 19 0) 20 7 stack)
input-Untouched_example = input-Untouched env (69 ∷ replicate 19 0) 20 7 stack

abbrev udp_block : UdpPcb
udp_block = record {
  state = UdpPcbState.open_;
  local_endpoint = endpoint_two;
  sender = some 0;
  data_entries = [];
}

abbrev udp_blocks : UdpPcbs
udp_blocks = record { entries = udp_block ∷ [] }

abbrev datum : UdpDataEntry
datum = record { remote_endpoint = endpoint_one; len = 3; payload = text }

abbrev channel : Channels
channel = record { receiver_alive = true; queue = [] } ∷ []

abbrev one_message : Channels
one_message = record { receiver_alive = true; queue = true ∷ [] } ∷ []

abbrev gone : Channels
gone = record { receiver_alive = false; queue = true ∷ [] } ∷ []

abbrev holding : UdpPcbs
holding = record { entries = record udp_block { data_entries = datum ∷ [] } ∷ [] }

history : History 0 udp_blocks (datum ∷ []) (datum ∷ []) udp_blocks
unfolding accept receive_wake send UdpBlocks.state_eq drop_receiver
history =
    receives datum 0 true one_message gone {posted = datum ∷ []} {taken = []} {now = holding}
      (accepts datum channel one_message (ok tt) {posted = []} {taken = []} {now = udp_blocks}
        starts refl)
      refl

History-fifo_example : mailbox udp_blocks 0 ++ datum ∷ [] ≡ datum ∷ [] ++ mailbox udp_blocks 0
History-fifo_example = History-fifo history

source_endpoint-IsFree_example :
    Ensures
      (λ local.
        IsFree (is_endpoint_used udp_blocks local.address) 49152 65535 local.port
        × (be_to_le_u16 local.port ≡ local.port % 256 * 256 + local.port / 256))
      (source_endpoint udp_blocks UdpBlocks.new_pcb endpoint_two (host_of addr_one 1))
source_endpoint-IsFree_example =
    source_endpoint-IsFree udp_blocks UdpBlocks.new_pcb endpoint_two (host_of addr_one 1) refl

abbrev world : World
world = record { host = host_of addr_one 1; pcbs = TcpBlocks.new_pcbs; channels = [] }

connect_endpoint-IsChosen_example :
    Ensures
      (λ local.
        IsChosen (is_taken world endpoint_two local.address) 49152 65535 local.port
        × (be_to_le_u16 local.port ≡ local.port % 256 * 256 + local.port / 256))
      (connect_endpoint new_pcb endpoint_two world)
connect_endpoint-IsChosen_example = connect_endpoint-IsChosen new_pcb endpoint_two world refl

abbrev send_state : SendState
send_state = record { window = 1000; next = 900; una = 800; mss = 1460 }

send_pass-Completes_example :
    Ensures (λ r. Completes send_state 3 0 r.0) (send_pass 4 env 0 text send_state 0 world)
send_pass-Completes_example =
    send_pass-Completes 3 env 0 text send_state 0 world (omega arith) (omega arith)

-- A passive open at port 12345.
abbrev listening : World
listening = record {
  host = host_of addr_one 1;
  pcbs =
      record new_pcb {
        state = TcpPcbState.listen;
        mode = TcpPcbMode.rfc793;
        local = endpoint_one;
        sender = some 0;
      }
      ∷ replicate 15 new_pcb;
  channels = channel;
}

abbrev fresh : World
fresh = record { host = host_of addr_one 1; pcbs = TcpBlocks.new_pcbs; channels = [] }

reach : Reach listening
unfolding rfc793_open_start new_channel TcpBlocks.new_entry
reach =
    System.steps (System.starts (host_of addr_one 1) [])
      (System.opens_rfc793 env 5 endpoint_one none false 0 0 {w = fresh} {w' = listening} refl)

Reach-AllLive_example : AllLive listening
Reach-AllLive_example = Reach-AllLive reach

-- The two queues of the program, which are empty.
abbrev queues : NetProtocols
queues = record {
  entries = record {
    head =
        node (record { protocol_type = ProtocolType.arp; input_head = [] })
          (node (record { protocol_type = ProtocolType.ip; input_head = [] }) nil);
  };
}

isr-build_frame_example :
    (frame : List ℕ) × (protocols' : NetProtocols) × (build_frame
        (device_of addr_one 1)
        ProtocolType.ip
        text
        (2 ∷ 0 ∷ 0 ∷ 0 ∷ 0 ∷ 2 ∷ [])
      ≡ done frame)
    × (isr env (with_frames (device_of addr_two 2) driver (frame ∷ [])) 37 queues
        ≡ done (
          record (with_frames (device_of addr_two 2) driver []) { raised = 10 ∷ [] },
          protocols',
        ))
    × (queue_of ProtocolType.ip protocols'.entries.head
        ≡ with_entry (entry_of 37 text) (queue_of ProtocolType.ip queues.entries.head))
    × ((u : ProtocolType)
        → protocol_eq ProtocolType.ip u ≡ false
        → queue_of u protocols'.entries.head ≡ queue_of u queues.entries.head)
unfolding bytes_eq
isr-build_frame_example =
    isr-build_frame env (device_of addr_one 1) (device_of addr_two 2) driver [] ProtocolType.ip text
      (2 ∷ 0 ∷ 0 ∷ 0 ∷ 0 ∷ 2 ∷ []) 37 queues refl refl (omega arith) refl refl refl
