-- ===== src/Tcp/Transfer/Exchange.antt =====
-- Data from one end of a connection of src/protocols/ip/tcp.rs to the other, and the acknowledgement.
use rust_user_net.Base.{
  ℕ, ◌+◌, ◌-◌, ◌^◌, ◌<◌, ◌≤◌, ◌≡◌, ◌∙◌, sym, ap, ap₂, List, [], ◌++◌, some, done, get_elem?,
  get_elem?-set_self, arith, true, length, length-append,
}
use rust_user_net.Device.Types.{Env}
use rust_user_net.Context.{Host}
use rust_user_net.Tcp.Types.{TcpPcb, TcpPcbState}
use rust_user_net.Tcp.Pcbs.{select, wake}
use rust_user_net.Tcp.Segment.{output_segment}
use rust_user_net.Tcp.World.{World, put_pcb, wake_world}
use rust_user_net.Tcp.Sending.{SendState, SendRound, send_test, send_round}
use rust_user_net.Tcp.Arrives.{arrives_at, segment_arrives}
use rust_user_net.Tcp.Window.{IsWindow}
use rust_user_net.Tcp.Handshake.{segment_with}
use rust_user_net.Tcp.Handshake.Established.{AreConnected, segment_arrives-at}
use rust_user_net.Tcp.Transfer.{TakesText, data_segment, pushed, extended, read_of}
use rust_user_net.Tcp.Transfer.Pushed.{select-pushed, send_test-established, send_round-IsIdle}
use rust_user_net.Tcp.Transfer.Taken.{arrives_connection-next_data}
use rust_user_net.Tcp.Advance.{IsIdle, Keeps}
use rust_user_net.Tcp.Transfer.Acked.{arrives_connection-last_ack}

arrives-next_data :
    (env : Env) (random sid : ℕ) (ws : World) (server client : TcpPcb) (text : List ℕ) (hs : Host)
    (sent : ℕ)
    → get_elem? ws.pcbs sid ≡ some server
    → select ws.pcbs client.remote (some client.local) ≡ some sid
    → AreConnected server client
    → server.send_context.una ≤ server.send_context.next
    → TakesText server text
    → output_segment env server.send_context.next
        (server.recv_context.next + length text)
        0x10
        (server.recv_context.window - length text)
        []
        server.local
        server.remote
        ws.host
      ≡ done (sent, hs)
    → (server' : TcpPcb) × (segment_arrives env
          (data_segment client.send_context.next client.recv_context.next client.recv_context.window
            text client.remote client.local random)
          ws
        ≡ done (
            wake_world
              (put_pcb (record (put_pcb ws sid server') { host = hs }) sid (extended server' text))
              server'.sender))
      × (server'.send_context.una ≡ server'.send_context.next)
      × Keeps server server'
unfolding arrives_at
arrives-next_data env random sid ws server client text hs sent there found c live t o =
    let (server', arrived, all, kept) =
      arrives_connection-next_data env client.recv_context.window random sid client.remote
        client.local server text ws hs sent there live t o in
    (
      server',
      ap₂
            (λ seq ack.
              segment_arrives env
                (data_segment seq ack client.recv_context.window text client.remote client.local
                  random)
                ws)
            c.to_server (sym c.to_client)
          ∙ segment_arrives-at env _ ws sid server TcpPcbState.established found there
              c.server_state
          ∙ arrived,
      all,
      kept,
    )

arrives-last_ack :
    (env : Env) (window random cid : ℕ) (wc : World) (server client : TcpPcb) (text : List ℕ)
    → get_elem? wc.pcbs cid ≡ some (pushed env client text)
    → select wc.pcbs server.remote (some server.local) ≡ some cid
    → AreConnected server client
    → IsIdle client
    → 0 < length text
    → client.recv_context.next + client.recv_context.window < 2 ^ 32
    → (client' : TcpPcb) × (segment_arrives env
          (segment_with server.send_context.next
            (server.recv_context.next + length text)
            0
            0x10
            window
            server.remote
            server.local
            random)
          wc
        ≡ done (put_pcb wc cid client'))
      × IsIdle client'
      × Keeps (pushed env client text) client'
unfolding arrives_at
arrives-last_ack env window random cid wc server client text there found c idle some_text below =
    let (client', arrived, idle', kept) =
      arrives_connection-last_ack env client text window random cid server.remote server.local wc
        there idle some_text below in
    (
      client',
      ap₂
            (λ seq ack.
              segment_arrives env
                (segment_with seq (ack + length text) 0 0x10 window server.remote server.local
                  random)
                wc)
            c.to_client (sym c.to_server)
          ∙ segment_arrives-at env _ wc cid (pushed env client text) TcpPcbState.established found
              there c.client_state
          ∙ arrived,
      idle',
      kept,
    )

-- The connection after an exchange: the data is behind what the receiver's buffer held, the reader
-- was woken, and the connection stands as before, with nothing that waits for an acknowledgement.
pub record IsDelivered (text : List ℕ) (server server' client' : TcpPcb) (ws ws' : World)
    : Type 0 where
  pub buffered : server'.buf ≡ server.buf ++ text
  pub windowed : IsWindow server'
  pub woken : ws'.channels ≡ wake server.sender true ws.channels
  pub connected : AreConnected server' client'
  pub idle_server : server'.send_context.una ≡ server'.send_context.next
  pub idle_client : IsIdle client'

-- Data of one end of a connection which has nothing on its way, and which fits one segment, the
-- window that the sender knows and the one that the receiver has. The receiver's window is the room
-- of its buffer, and its `send.una` is not above its `send.next`. When the segments find their
-- blocks, the numbers do not overflow and the two segments that are sent leave their hosts, then a
-- round of `send` sends it all, no segment makes a host panic, the data is behind what the
-- receiver's buffer held, the window is the room that is left, and the reader is woken. Behind the
-- acknowledgement both are ESTABLISHED, nothing is on its way between them, and each expects the
-- number that the other sends next.
pub send_round-IsDelivered :
    (env : Env) (random random' : ℕ) (ws wc : World) (sid cid : ℕ) (server client : TcpPcb)
    (text : List ℕ) (hs hc : Host) (sent sent' : ℕ)
    → get_elem? ws.pcbs sid ≡ some server
    → get_elem? wc.pcbs cid ≡ some client
    → select ws.pcbs client.remote (some client.local) ≡ some sid
    → select wc.pcbs server.remote (some server.local) ≡ some cid
    → AreConnected server client
    → server.send_context.una ≤ server.send_context.next
    → IsIdle client
    → IsWindow server
    → 0 < length text
    → length text ≤ wc.host.device.mtu - 40
    → length text ≤ client.send_context.window
    → length text ≤ server.recv_context.window
    → server.recv_context.next + server.recv_context.window < 2 ^ 32
    → client.recv_context.next + client.recv_context.window < 2 ^ 32
    → output_segment env client.send_context.next client.recv_context.next 0x18
        client.recv_context.window text client.local client.remote wc.host
      ≡ done (sent, hc)
    → output_segment env server.send_context.next
        (server.recv_context.next + length text)
        0x10
        (server.recv_context.window - length text)
        []
        server.local
        server.remote
        ws.host
      ≡ done (sent', hs)
    → (read : SendState) × (wc₁ : World) × (ws₁ : World) × (wc₂ : World) × (server' : TcpPcb)
      × (client' : TcpPcb) × (send_test cid wc ≡ done (some read))
      × (send_round env cid text read 0 wc ≡ done (SendRound.continues (length text), wc₁))
      × (segment_arrives env
            (data_segment client.send_context.next client.recv_context.next
              client.recv_context.window text client.remote client.local random)
            ws
          ≡ done ws₁)
      × (segment_arrives env
            (segment_with server.send_context.next
              (server.recv_context.next + length text)
              0
              0x10
              (server.recv_context.window - length text)
              server.remote
              server.local
              random')
            wc₁
          ≡ done wc₂)
      × (get_elem? ws₁.pcbs sid ≡ some server')
      × (get_elem? wc₂.pcbs cid ≡ some client')
      × IsDelivered text server server' client' ws ws₁
send_round-IsDelivered env random random' ws wc sid cid server client text hs hc sent sent' fs fc
      founds foundc c live idle window some_text fits allowed room ends below oc os =
    let t : TakesText server text = record {
      some_text = some_text;
      room = room;
      small = omega (arith, window);
      below = ends;
    } in
    let wc₁ = put_pcb (record wc { host = hc }) cid (pushed env client text) in
    let there = get_elem?-set_self wc.pcbs cid (pushed env client text) client fc in
    let (client', acked, idle', kept) =
      arrives-last_ack env (server.recv_context.window - length text) random' cid wc₁ server client
        text there
        (select-pushed env text wc.pcbs cid client server.remote (some server.local) fc ∙ foundc) c
        idle some_text below in
    let (server', arrived, all, kept') =
      arrives-next_data env random sid ws server client text hs sent' fs founds c live t os in
    let received = ap (λ r. r.window) kept'.received in
    (
      read_of client (wc.host.device.mtu - 40),
      wc₁,
      _,
      _,
      extended server' text,
      client',
      send_test-established cid client wc fc c.client_state (omega arith),
      send_round-IsIdle env cid (wc.host.device.mtu - 40) client text wc hc sent fc idle some_text
          fits allowed (omega (arith, c.to_server, room, ends)) oc,
      arrived,
      acked,
      get_elem?-set_self _ sid (extended server' text) server'
          (get_elem?-set_self ws.pcbs sid server' server fs),
      get_elem?-set_self _ cid client' (pushed env client text) there,
      record {
        buffered = ap (λ buf. buf ++ text) kept'.buffer;
        windowed =
            omega (
              arith,
              received,
              window,
              room,
              length-append server'.buf text,
              ap length kept'.buffer,
            );
        woken = ap (λ waiter. wake waiter true ws.channels) kept'.waiter;
        connected = record {
          server_state = kept'.state ∙ c.server_state;
          client_state = kept.state ∙ c.client_state;
          to_server =
              kept.send_next
              ∙ ap (λ n. n + length text) (c.to_server ∙ sym (ap (λ r. r.next) kept'.received));
          to_client = kept'.send_next ∙ c.to_client ∙ sym (ap (λ r. r.next) kept.received);
        };
        idle_server = all;
        idle_client = idle';
      },
    )
