-- ===== src/Tcp/Commands.antt =====
-- The user commands of src/protocols/ip/tcp.rs that do not wait, and the two halves of those that
-- do: what they do before they wait for a message, and what they do with the one that they get.
use rust_user_net.Base.{
  ℕ, zero, suc, ◌+◌, ◌-◌, ◌%◌, ◌^◌, List, [], ◌∷◌, Option, none, some, Bool, true, false, not, ◌||◌,
  Run, done, panic, ◌>>=◌, ◌>>◌, check, unwrap, ltb, leb, ◌==◌, min, if◌then◌else◌, get_elem?, set,
  length, take, drop,
}
use rust_user_net.Channel.{new_channel}
use rust_user_net.Device.Types.{Env}
use rust_user_net.Ip.Route.{IpEndpoint, ip_addr_any, new_endpoint, get_interface}
use rust_user_net.Tcp.Types.{
  TcpPcb, TcpPcbState, TcpPcbMode, TcpFlag, flag_as_u8, is_socket, state_eq, pcb_buf_len, add_u32,
  tcp_src_port_min, tcp_src_port_max,
}
use rust_user_net.Tcp.Pcbs.{new_entry, select, pcb_by_id}
use rust_user_net.Tcp.Segment.{output}
use rust_user_net.Tcp.World.{World, put_pcb, release_at}

unfoldable pub open_socket : World → Run (ℕ × World)
open_socket w = do
  (pcb_id, pcbs) ← unwrap (new_entry w.pcbs)
  pcb ← pcb_by_id pcbs pcb_id
  done (pcb_id, record w { pcbs = set pcbs pcb_id (record pcb { mode = TcpPcbMode.socket }) })

unfoldable pub bind : ℕ → IpEndpoint → World → Run World
bind pcb_id local w = elim (select w.pcbs local none) [
  | some _ ↦ panic
  | none ↦ (do
    pcb ← pcb_by_id w.pcbs pcb_id
    check (is_socket pcb.mode)
    done (put_pcb w pcb_id (record pcb { local = local })))
]

unfoldable pub listen : ℕ → World → Run World
listen pcb_id w = do
  pcb ← pcb_by_id w.pcbs pcb_id
  check (is_socket pcb.mode)
  done (put_pcb w pcb_id (record pcb { state = TcpPcbState.listen }))

-- A block that starts a connection from its end: SYN is sent, and the state is SYN-SENT.
unfoldable pub start_connection : Env → ℕ → ℕ → TcpPcb → World → Run World
start_connection env random pcb_id pcb w = do
  (_, pcb', host) ←
      output env
        (record pcb {
          recv_context = record (pcb.recv_context) { window = pcb_buf_len };
          iss = random;
        })
        (flag_as_u8 TcpFlag.syn) [] w.host
  next ← add_u32 pcb'.iss 1
  let sent = record pcb' {
    send_context = record (pcb'.send_context) { una = pcb'.iss; next = next };
    state = TcpPcbState.syn_sent;
  }
  done (record w { host = host; pcbs = set w.pcbs pcb_id sent })

or_remote : IpEndpoint → Option IpEndpoint → IpEndpoint
or_remote old none = old
or_remote old (some remote) = remote

-- `rfc793_open` up to its wait, with the receiver that it waits at.
unfoldable pub rfc793_open_start :
    Env → ℕ → IpEndpoint → Option IpEndpoint → Bool → World → Run (ℕ × ℕ × World)
unfolding start_connection or_remote
rfc793_open_start env random local remote active w = do
  let (receiver, channels) = new_channel w.channels
  (pcb_id, pcbs) ← unwrap (new_entry w.pcbs)
  taken ← pcb_by_id pcbs pcb_id
  let pcb = record taken {
    mode = TcpPcbMode.rfc793;
    local = local;
    sender = some receiver;
    remote = or_remote taken.remote remote;
  }
  let w' = record w { pcbs = set pcbs pcb_id pcb; channels = channels }
  w'' ←
      (if active
        then start_connection env random pcb_id pcb w'
        else done (put_pcb w' pcb_id (record pcb { state = TcpPcbState.listen })))
  done (pcb_id, receiver, w'')

-- What a command does when it wakes up: it returns, or waits again.
pub data Waked (A : Type 0) : Type 0 where
  returns : A → Waked A
  waits : Waked A

-- The body of the loop of `rfc793_open`, whose test does not change.
unfoldable pub rfc793_open_wake : ℕ → Bool → World → Run (Waked (Option ℕ) × World)
rfc793_open_wake pcb_id proceed w = do
  pcb ← pcb_by_id w.pcbs pcb_id
  if state_eq pcb.state TcpPcbState.established
      then done (returns (some pcb_id), w)
      else if not proceed || not (state_eq pcb.state TcpPcbState.syn_received)
      then (do w' ← release_at pcb_id w; done (returns none, w'))
      else done (waits, w)

-- The loop of `connect` over the dynamic ports: the first one that no block has, else the last.
unfoldable pub dynamic_port : (ℕ → Bool) → ℕ → ℕ → ℕ → ℕ
dynamic_port taken zero port last = last
dynamic_port taken (suc left) port last =
    let rest = dynamic_port taken left (port + 1) port in if taken port then rest else port

unfoldable pub is_taken : World → IpEndpoint → ℕ → ℕ → Bool
is_taken w remote address port =
    elim (select w.pcbs (record { address = address; port = port }) (some remote)) [
      | none ↦ false
      | some _ ↦ true
    ]

-- The local port that `connect` takes with an address.
unfoldable pub connect_port : IpEndpoint → IpEndpoint → World → ℕ → ℕ
unfolding is_taken dynamic_port
connect_port local remote w address =
    if local.port == 0
    then dynamic_port (is_taken w remote address) (tcp_src_port_max - tcp_src_port_min)
        tcp_src_port_min 0
    else local.port

-- The local endpoint that `connect` takes.
unfoldable pub connect_endpoint : TcpPcb → IpEndpoint → World → Run IpEndpoint
connect_endpoint pcb remote w = do
  let local = new_endpoint pcb.local.address pcb.local.port
  address ←
      (if local.address == ip_addr_any
        then (do
          interface ← unwrap (get_interface w.host.contexts.ip_routes remote.address)
          done interface.unicast)
        else done local.address)
  let port = connect_port local remote w address
  check (not (port == 0))
  done (record { address = address; port = port })

-- `connect` up to its wait, with the receiver that it waits at: its three sections under the lock of
-- the control blocks, one after the other.
unfoldable pub connect_start : Env → ℕ → ℕ → IpEndpoint → World → Run (ℕ × World)
unfolding start_connection
connect_start env random pcb_id remote w = do
  pcb ← pcb_by_id w.pcbs pcb_id
  check (is_socket pcb.mode)
  local ← connect_endpoint pcb remote w
  let (receiver, channels) = new_channel w.channels
  w' ←
      start_connection env random pcb_id (record pcb { local = local; remote = remote })
        (record w { channels = channels })
  pcb' ← pcb_by_id w'.pcbs pcb_id
  done (receiver, put_pcb w' pcb_id (record pcb' { sender = some receiver }))

-- The body of the loop of `connect`.
unfoldable pub connect_wake : ℕ → Bool → World → Run (Waked (Option ℕ) × World)
connect_wake pcb_id wakeup w = do
  pcb ← pcb_by_id w.pcbs pcb_id
  let closed = put_pcb w pcb_id (record pcb { state = TcpPcbState.closed })
  if not wakeup
      then done (returns none, closed)
      else if state_eq pcb.state TcpPcbState.established
      then done (returns (some pcb_id), w)
      else if not (state_eq pcb.state TcpPcbState.syn_received)
      then done (returns none, closed)
      else done (waits, w)

unfoldable pub pop_backlog : TcpPcb → List ℕ → Option ℕ × TcpPcb
pop_backlog pcb [] = (none, pcb)
pop_backlog pcb (pcb_id ∷ rest) = (some pcb_id, record pcb { backlog = rest })

-- `accept` up to its loop: the receiver and the connection that it takes next, if there is one.
unfoldable pub accept_start : ℕ → World → Run (ℕ × Option ℕ × World)
unfolding pop_backlog
accept_start pcb_id w = do
  let (receiver, channels) = new_channel w.channels
  pcb ← pcb_by_id w.pcbs pcb_id
  check (is_socket pcb.mode)
  check (state_eq pcb.state TcpPcbState.listen)
  let (next, pcb') = pop_backlog (record pcb { sender = some receiver }) pcb.backlog
  done (receiver, next, record w { pcbs = set w.pcbs pcb_id pcb'; channels = channels })

-- The body of the loop of `accept` with a connection in hand, after a message: what it has now,
-- and what it takes next. The loop returns what it has when there is no next one.
unfoldable pub accept_wake : ℕ → Option ℕ → Bool → World → Run (Waked (Option ℕ) × Option ℕ × World)
unfolding pop_backlog
accept_wake pcb_id in_hand message w = if not message then done (returns none, none, w) else do
  pcb ← pcb_by_id w.pcbs pcb_id
  if state_eq pcb.state TcpPcbState.closed then done (returns none, none, w) else (do
    let (next, pcb') = pop_backlog pcb pcb.backlog
    let w' = put_pcb w pcb_id pcb'
    elim next [
      | none ↦ done (returns in_hand, none, w')
      | some next_id ↦ done (waits, some next_id, w')
    ])

-- What the loop of `receive` does in a state with a window, when it holds `remain`: it fails, waits,
-- goes on to take what is there, or runs in its loop without an end, since the loop then reads
-- neither the state nor a message.
pub data Receive : Type 0 where
  fails sleeps spins : Receive
  takes : Option ℕ → Receive

unfoldable pub receive_test : TcpPcbState → ℕ → Option ℕ → Receive
receive_test TcpPcbState.closed window remain = fails
receive_test TcpPcbState.listen window remain = fails
receive_test TcpPcbState.syn_sent window remain = fails
receive_test TcpPcbState.syn_received window remain = fails
receive_test TcpPcbState.established window remain =
    if leb pcb_buf_len window then sleeps else takes remain
receive_test TcpPcbState.fin_wait1 window remain =
    if leb pcb_buf_len window then sleeps else takes remain
receive_test TcpPcbState.fin_wait2 window remain =
    if leb pcb_buf_len window then sleeps else takes remain
receive_test TcpPcbState.close_wait window remain =
    if ltb window pcb_buf_len then takes (some (pcb_buf_len - window)) else takes remain
receive_test _ window remain = spins

-- How much `receive` takes: `remain` is what it knew of the window when it went on.
abbrev pub receive_len : TcpPcb → ℕ → Option ℕ → ℕ
receive_len pcb size none = min (length pcb.buf) size
receive_len pcb size (some remain) = min (length pcb.buf) (min size remain)

-- The end of `receive`, under its last lock. `window += len as u16` is checked.
unfoldable pub receive_take : ℕ → ℕ → Option ℕ → World → Run (List ℕ × World)
receive_take pcb_id size remain w = do
  pcb ← pcb_by_id w.pcbs pcb_id
  let len = receive_len pcb size remain
  let window = pcb.recv_context.window + len % 2 ^ 16
  check (ltb window (2 ^ 16))
  done (
    take len pcb.buf,
    put_pcb w pcb_id (record pcb {
      buf = drop len pcb.buf;
      recv_context = record (pcb.recv_context) { window = window };
    }),
  )

-- The block's sender is replaced, at the start of `send` and `receive`.
unfoldable pub attach : ℕ → World → Run (ℕ × World)
attach pcb_id w = do
  let (receiver, channels) = new_channel w.channels
  pcb ← pcb_by_id w.pcbs pcb_id
  done (
    receiver,
    record w {
      pcbs = set w.pcbs pcb_id (record pcb { sender = some receiver });
      channels = channels;
    },
  )

-- `close`: RST is sent and the block released; of a block that is not there nothing is done.
unfoldable pub close : Env → ℕ → World → Run World
close env pcb_id w = elim (get_elem? w.pcbs pcb_id) [
  | none ↦ done w
  | some pcb ↦ (do
    (_, pcb', host) ← output env pcb (flag_as_u8 TcpFlag.rst) [] w.host
    release_at pcb_id (record w { host = host; pcbs = set w.pcbs pcb_id pcb' }))
]
