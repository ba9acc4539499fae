-- ===== src/Tcp/Handshake/Established.antt =====
-- Two hosts of src/protocols/ip/tcp.rs after a handshake.
use rust_user_net.Base.{
  ℕ, ◌+◌, ◌^◌, ◌<◌, ◌≤◌, ◌≡◌, ◌∙◌, refl, sym, ap, [], none, some, false, done, get_elem?, set,
  get_elem?-set_self, arith,
}
use rust_user_net.Device.Types.{Env}
use rust_user_net.Context.{Host}
use rust_user_net.Tcp.Types.{TcpPcb, TcpPcbState, is_socket, pcb_buf_len, tcp_flag_exists}
use rust_user_net.Tcp.Queue.{clean_queue_lem}
use rust_user_net.Tcp.Advance.{IsIdle}
use rust_user_net.Tcp.Pcbs.{select, clean_queue, add_data_queue, clean_data_queue}
use rust_user_net.Tcp.Segment.{output_segment, queued}
use rust_user_net.Tcp.World.{World, Arrival}
use rust_user_net.Tcp.Arrives.{arrives_at, segment_arrives}
use rust_user_net.Tcp.Handshake.{
  segment_with, requested, answered, connected, IsRequesting, IsAnswering, arrives_listen-syn,
  arrives_syn_sent-answer, arrives_connection-ack,
}

-- Both blocks are ESTABLISHED, and each expects the number that the other sends next.
pub record AreConnected (server client : TcpPcb) : Type 0 where
  pub server_state : server.state ≡ TcpPcbState.established
  pub client_state : client.state ≡ TcpPcbState.established
  pub to_server : client.send_context.next ≡ server.recv_context.next
  pub to_client : server.send_context.next ≡ client.recv_context.next

pub segment_arrives-at :
    (env : Env) (a : Arrival) (w : World) (pcb_id : ℕ) (pcb : TcpPcb) (s : TcpPcbState)
    → select w.pcbs a.local (some a.remote) ≡ some pcb_id
    → get_elem? w.pcbs pcb_id ≡ some pcb
    → pcb.state ≡ s
    → segment_arrives env a w ≡ arrives_at env a pcb_id pcb s w
unfolding segment_arrives
segment_arrives-at env a w pcb_id pcb s h₁ h₂ h₃ = rw (h₁, h₂, h₃, segment_arrives) refl

-- The block of the server after the SYN of a client.
abbrev pub syn_received : Env → ℕ → ℕ → TcpPcb → TcpPcb → TcpPcb
syn_received env x y server client =
    answered env (requested server x y client.remote client.local) y

syn_received-IsAnswering :
    (env : Env) (x y : ℕ) (server client : TcpPcb)
    → server.parent_id ≡ none
    → IsAnswering x y (syn_received env x y server client)
unfolding queued add_data_queue tcp_flag_exists
syn_received-IsAnswering env x y server client h = record {
  at_recv = refl;
  at_window = refl;
  at_una = refl;
  at_next = refl;
  no_parent = h;
}

-- The connection is ready for data: nothing that the client sent is without an acknowledgement, and
-- the window that it knows is the one that the server has, a whole buffer.
pub record IsReady (server server' client' : TcpPcb) : Type 0 where
  pub idle : IsIdle client'
  pub live : server'.send_context.una ≤ server'.send_context.next
  pub window : server'.recv_context.window ≡ pcb_buf_len
  pub known_window : client'.send_context.window ≡ pcb_buf_len
  pub buffer : server'.buf ≡ server.buf

connected-IsIdle :
    (x y : ℕ) (client : TcpPcb) → IsRequesting x client → IsIdle (connected client x y pcb_buf_len)
unfolding clean_data_queue
connected-IsIdle x y client rc = record {
  all_acked = sym rc.at_next;
  unqueued =
      ap (clean_queue (x + 1)) rc.queue
      ∙ (clean_queue_lem (x + 1) [] rc.entry [] tt (omega (arith, rc.entry_seq)) tt).0;
}

-- A SYN with the number `x` from a block that sent it, at a listening block that is no socket, which
-- answers with the number `y`; the answer at the first block; and its acknowledgement at the second:
-- when the three segments find these blocks, the numbers do not overflow and the two segments that
-- are sent leave their hosts, then no segment makes a host panic, both blocks are ESTABLISHED, each
-- expects the number that the other sends next, nothing that the first block sent is without an
-- acknowledgement, and the window that it knows is the one that the second block has, a whole buffer.
pub segment_arrives-AreConnected :
    (env : Env) (x y random random' : ℕ) (ws wc : World) (sid cid : ℕ) (server client : TcpPcb)
    (hs hc : Host)
    → get_elem? ws.pcbs sid ≡ some server
    → server.state ≡ TcpPcbState.listen
    → is_socket server.mode ≡ false
    → server.parent_id ≡ none
    → get_elem? wc.pcbs cid ≡ some client
    → client.state ≡ TcpPcbState.syn_sent
    → IsRequesting x client
    → select ws.pcbs client.remote (some client.local) ≡ some sid
    → select
        (set ws.pcbs sid (syn_received env x y server client))
        client.remote
        (some client.local)
      ≡ some sid
    → select wc.pcbs client.local (some client.remote) ≡ some cid
    → x + 1 + pcb_buf_len < 2 ^ 32
    → y + 1 < 2 ^ 32
    → output_segment env y (x + 1) 0x12 pcb_buf_len [] client.remote client.local ws.host
      ≡ done (0, hs)
    → output_segment env
        (x + 1)
        (y + 1)
        0x10
        client.recv_context.window
        []
        client.local
        client.remote
        wc.host
      ≡ done (0, hc)
    → (ws₁ : World) × (ws₂ : World) × (wc₁ : World) × (server' : TcpPcb) × (client' : TcpPcb)
      × (segment_arrives env
            (segment_with x 0 1 0x02 client.recv_context.window client.remote client.local y)
            ws
          ≡ done ws₁)
      × (segment_arrives env
            (segment_with y (x + 1) 1 0x12 pcb_buf_len client.local client.remote random)
            wc
          ≡ done wc₁)
      × (segment_arrives env
            (segment_with
              (x + 1)
              (y + 1)
              0
              0x10
              client.recv_context.window
              client.remote
              client.local
              random')
            ws₁
          ≡ done ws₂)
      × (get_elem? ws₂.pcbs sid ≡ some server')
      × (get_elem? wc₁.pcbs cid ≡ some client')
      × AreConnected server' client'
      × IsReady server server' client'
unfolding arrives_at queued add_data_queue tcp_flag_exists clean_data_queue
segment_arrives-AreConnected env x y random random' ws wc sid cid server client hs hc fs ls ms ps fc
      lc rc s₁ s₂ s₃ hx hy os oc =
    let middle = get_elem?-set_self ws.pcbs sid (syn_received env x y server client) server fs in
    let answering = syn_received-IsAnswering env x y server client ps in
    (
      _,
      _,
      _,
      _,
      _,
      segment_arrives-at env _ ws sid server TcpPcbState.listen s₁ fs ls
          ∙ arrives_listen-syn env x y client.remote client.local client.recv_context.window sid
              server ws hs ms (omega (arith, hx)) hy os,
      segment_arrives-at env _ wc cid client TcpPcbState.syn_sent s₃ fc lc
          ∙ arrives_syn_sent-answer env x y pcb_buf_len random cid client wc hc rc hy oc,
      segment_arrives-at env _ _ sid (syn_received env x y server client) TcpPcbState.syn_received
            s₂ middle refl
          ∙ arrives_connection-ack env x y client.remote client.local client.recv_context.window
              random' sid (syn_received env x y server client) _ middle answering hx,
      get_elem?-set_self _ sid _ _ middle,
      get_elem?-set_self wc.pcbs cid (connected client x y pcb_buf_len) client fc,
      record { server_state = refl; client_state = refl; to_server = rc.at_next; to_client = refl },
      record {
        idle = connected-IsIdle x y client rc;
        live = omega arith;
        window = refl;
        known_window = refl;
        buffer = refl;
      },
    )
