-- ===== src/Tests/Handshakes.antt =====
-- A handshake between 192.0.2.1 and 192.0.2.2, on links that need no ARP.
use rust_user_net.Base.{panic, ℕ, ◌≡◌, refl, [], ◌∷◌, some, done, get_elem?, arith}
use rust_user_net.Utils.LinkedList.{nil, node}
use rust_user_net.Utils.Byte.{le_to_be_u16, le_to_be_u32, byte_swap_u16, byte_swap_u32}
use rust_user_net.Utils.Cksum.{cksum16}
use rust_user_net.Context.{Host, transmit}
use rust_user_net.Device.Types.{is_open}
use rust_user_net.Device.Dispatch as Dispatch
use rust_user_net.Device.Ethernet as Ethernet
use rust_user_net.Ip.Route.{lookup_ip_route, pick, pick_from}
use rust_user_net.Ip.Header.{create_ip_header, blank_header}
use rust_user_net.Ip.Output as Output
use rust_user_net.Udp.Datagram.{pseudo_sum}
use rust_user_net.Tcp.Types.{
  TcpDataQueueEntry, TcpPcb, TcpPcbState, TcpPcbMode, new_pcb, pcb_buf_len, tcp_flag_exists,
}
use rust_user_net.Tcp.Pcbs.{select, add_data_queue}
use rust_user_net.Tcp.Segment.{output_segment, segment, queued}
use rust_user_net.Tcp.World.{World}
use rust_user_net.Tcp.Arrives.{segment_arrives}
use rust_user_net.Tcp.Handshake.{segment_with}
use rust_user_net.Tcp.Handshake.Established.{
  AreConnected, IsReady, syn_received, segment_arrives-AreConnected,
}
use rust_user_net.Tcp.Sending.{SendState, send_test, send_round}
use rust_user_net.Tcp.Capacity.{segment_arrives-IsClosing}
use rust_user_net.Tests.{
  env, addr_one, addr_two, iface_of, device_of, host_of, endpoint_one, endpoint_two,
}

abbrev pub quiet_host : ℕ → ℕ → Host
quiet_host addr id = record {
  device = record (device_of addr 1) { flags = 0x21 };
  contexts = record ((host_of addr 1).contexts) {
    ip_routes = record {
      entries = record {
        head =
            node (record { network = 0; netmask = 0; next_hop = 0; interface = iface_of addr }) nil;
      };
    };
    ip_id_manager = id;
  };
}

abbrev server : TcpPcb
server = record new_pcb {
  state = TcpPcbState.listen;
  mode = TcpPcbMode.rfc793;
  local = endpoint_two;
}

abbrev syn_entry : TcpDataQueueEntry
syn_entry = record {
  first_sent_at = 4900000;
  last_sent_at = 4900000;
  retry_interval = 200000;
  seq_num = 100;
  flags = 0x02;
  payload = [];
}

abbrev pub client : TcpPcb
client = record new_pcb {
  state = TcpPcbState.syn_sent;
  mode = TcpPcbMode.rfc793;
  local = endpoint_one;
  remote = endpoint_two;
  iss = 100;
  send_context = record { next = 101; una = 100; window = 0; urg_ptr = 0; wl1 = 0; wl2 = 0 };
  recv_context = record { next = 0; window = 65535; urg_ptr = 0 };
  data_queue = syn_entry ∷ [];
}

abbrev pub world_of : ℕ → TcpPcb → World
world_of addr pcb = record { host = quiet_host addr 128; pcbs = pcb ∷ []; channels = [] }

sent_server :
    output_segment env 500 101 0x12 pcb_buf_len [] endpoint_two endpoint_one
      (quiet_host addr_two 128)
    ≡ done (0, quiet_host addr_two 129)
unfolding output_segment segment pseudo_sum cksum16 le_to_be_u16 le_to_be_u32 byte_swap_u16
    byte_swap_u32 Output.output Output.output_by Output.generate_id Output.hw_address
    create_ip_header lookup_ip_route pick pick_from transmit Dispatch.transmit Ethernet.transmit
    Ethernet.build_frame blank_header is_open
sent_server = refl

sent_client :
    output_segment env 101 501 0x10 65535 [] endpoint_one endpoint_two (quiet_host addr_one 128)
    ≡ done (0, quiet_host addr_one 129)
unfolding output_segment segment pseudo_sum cksum16 le_to_be_u16 le_to_be_u32 byte_swap_u16
    byte_swap_u32 Output.output Output.output_by Output.generate_id Output.hw_address
    create_ip_header lookup_ip_route pick pick_from transmit Dispatch.transmit Ethernet.transmit
    Ethernet.build_frame blank_header is_open
sent_client = refl

found_listening : select (server ∷ []) endpoint_two (some endpoint_one) ≡ some 0
unfolding select
found_listening = refl

found_received :
    select (syn_received env 100 500 server client ∷ []) endpoint_two (some endpoint_one) ≡ some 0
unfolding select queued add_data_queue tcp_flag_exists
found_received = refl

found_client : select (client ∷ []) endpoint_one (some endpoint_two) ≡ some 0
unfolding select
found_client = refl

segment_arrives-AreConnected_example :
    (ws₁ : World) × (ws₂ : World) × (wc₁ : World) × (server' : TcpPcb) × (client' : TcpPcb)
    × (segment_arrives env
          (segment_with 100 0 1 0x02 65535 endpoint_two endpoint_one 500)
          (world_of addr_two server)
        ≡ done ws₁)
    × (segment_arrives env
          (segment_with 500 101 1 0x12 pcb_buf_len endpoint_one endpoint_two 7)
          (world_of addr_one client)
        ≡ done wc₁)
    × (segment_arrives env (segment_with 101 501 0 0x10 65535 endpoint_two endpoint_one 8) ws₁
        ≡ done ws₂)
    × (get_elem? ws₂.pcbs 0 ≡ some server')
    × (get_elem? wc₁.pcbs 0 ≡ some client')
    × AreConnected server' client'
    × IsReady server server' client'
segment_arrives-AreConnected_example =
    segment_arrives-AreConnected env 100 500 7 8 (world_of addr_two server)
      (world_of addr_one client) 0 0 server client (quiet_host addr_two 129)
      (quiet_host addr_one 129) refl refl refl refl refl refl
      (record {
        at_iss = refl;
        at_una = refl;
        at_next = refl;
        entry = syn_entry;
        queue = refl;
        entry_seq = refl;
      })
      found_listening found_received found_client (omega arith) (omega arith) sent_server
      sent_client

-- A connection with 100 bytes on their way, whose other end takes 1000.
abbrev sending : TcpPcb
sending = record client {
  state = TcpPcbState.established;
  send_context = record { next = 300; una = 200; window = 1000; urg_ptr = 0; wl1 = 0; wl2 = 0 };
}

found_sending : select (sending ∷ []) endpoint_one (some endpoint_two) ≡ some 0
unfolding select
found_sending = refl

-- The half of it is acknowledged, with a window of 20 bytes.
segment_arrives-IsClosing_example :
    (w' : World) × (s : SendState) × (segment_arrives env
        (segment_with 0 250 0 0x10 20 endpoint_one endpoint_two 7)
        (world_of addr_one sending)
      ≡ done w')
    × (send_test 0 w' ≡ done (some s))
    × (send_round env 0 (65 ∷ []) s 0 w' ≡ panic)
segment_arrives-IsClosing_example =
    segment_arrives-IsClosing env env 20 7 250 0 endpoint_one endpoint_two sending (65 ∷ [])
      (world_of addr_one sending) refl found_sending
      (record {
        established = refl;
        some_acked = omega arith;
        sent = omega arith;
        later = omega arith;
        later_ack = omega arith;
        closes = omega arith;
        below = omega arith;
      })
      (omega arith) (omega arith)
