-- ===== src/Tests/Transfers.antt =====
-- Three bytes from 192.0.2.1 to 192.0.2.2 behind a handshake, on links that need no ARP.
use rust_user_net.Base.{ℕ, List, ◌++◌, none, ◌≡◌, refl, [], ◌∷◌, some, done, get_elem?, arith}
use rust_user_net.Utils.Byte.{le_to_be_u16, le_to_be_u32, byte_swap_u16, byte_swap_u32}
use rust_user_net.Utils.Cksum.{cksum16}
use rust_user_net.Context.{transmit}
use rust_user_net.Device.Types.{is_open}
use rust_user_net.Device.Dispatch as Dispatch
use rust_user_net.Device.Ethernet as Ethernet
use rust_user_net.Ip.Route.{lookup_ip_route, pick, pick_from}
use rust_user_net.Ip.Header.{create_ip_header, blank_header}
use rust_user_net.Ip.Output as Output
use rust_user_net.Udp.Datagram.{pseudo_sum}
use rust_user_net.Tcp.Types.{TcpPcb, TcpPcbState}
use rust_user_net.Tcp.Pcbs.{select}
use rust_user_net.Tcp.Segment.{output_segment, segment}
use rust_user_net.Tcp.World.{World}
use rust_user_net.Tcp.Sending.{SendState, SendRound, send_test, send_round}
use rust_user_net.Tcp.Arrives.{segment_arrives}
use rust_user_net.Tcp.Handshake.{segment_with}
use rust_user_net.Tcp.Transfer.{data_segment}
use rust_user_net.Tcp.Transfer.Exchange.{IsDelivered, send_round-IsDelivered}
use rust_user_net.Tcp.Progress.{Ends}
use rust_user_net.Tcp.Pcbs.{wake}
use rust_user_net.Tcp.Segment.{output, queued}
use rust_user_net.Tcp.Types.{tcp_flag_exists}
use rust_user_net.Tcp.World.{Arrival, go, put_pcb, send_from}
use rust_user_net.Tcp.Phases.{process_text, take_text}
use rust_user_net.Tcp.Commands.{receive_take}
use rust_user_net.Tcp.Transfer.{extended}
use rust_user_net.Tcp.Window.Calls.{IsHolding}
use rust_user_net.Tcp.Window.Stream.{History, History-IsHolding, starts, arrives, reads}
use rust_user_net.Tcp.Rounds.{send_round_lem}
use rust_user_net.Tests.{env, addr_one, addr_two, text, endpoint_one, endpoint_two}
use rust_user_net.Tests.Handshakes.{quiet_host, world_of, client}

-- The two ends as the handshake leaves them: the server's SYN has not been counted as acknowledged.
abbrev client_end : TcpPcb
client_end = record client {
  state = TcpPcbState.established;
  send_context = record {
    next = 101;
    una = 101;
    window = 65535;
    urg_ptr = 0;
    wl1 = 500;
    wl2 = 101;
  };
  recv_context = record { next = 501; window = 65535; urg_ptr = 0 };
  data_queue = [];
}

abbrev server_end : TcpPcb
server_end = record client {
  state = TcpPcbState.established;
  local = endpoint_two;
  remote = endpoint_one;
  iss = 500;
  send_context = record { next = 501; una = 500; window = 0; urg_ptr = 0; wl1 = 0; wl2 = 0 };
  recv_context = record { next = 101; window = 65535; urg_ptr = 0 };
  data_queue = [];
}

sent_text :
    output_segment env 101 501 0x18 65535 text endpoint_one endpoint_two (quiet_host addr_one 128)
    ≡ done (3, quiet_host addr_one 129)
unfolding output_segment segment pseudo_sum cksum16 le_to_be_u16 le_to_be_u32 byte_swap_u16
    byte_swap_u32 Output.output Output.output_by Output.generate_id Output.hw_address
    create_ip_header lookup_ip_route pick pick_from transmit Dispatch.transmit Ethernet.transmit
    Ethernet.build_frame blank_header is_open
sent_text = refl

sent_ack :
    output_segment env 501 104 0x10 65532 [] endpoint_two endpoint_one (quiet_host addr_two 128)
    ≡ done (0, quiet_host addr_two 129)
unfolding output_segment segment pseudo_sum cksum16 le_to_be_u16 le_to_be_u32 byte_swap_u16
    byte_swap_u32 Output.output Output.output_by Output.generate_id Output.hw_address
    create_ip_header lookup_ip_route pick pick_from transmit Dispatch.transmit Ethernet.transmit
    Ethernet.build_frame blank_header is_open
sent_ack = refl

found_server_end : select (server_end ∷ []) endpoint_two (some endpoint_one) ≡ some 0
unfolding select
found_server_end = refl

found_client_end : select (client_end ∷ []) endpoint_one (some endpoint_two) ≡ some 0
unfolding select
found_client_end = refl

send_round-IsDelivered_example :
    (read : SendState) × (wc₁ : World) × (ws₁ : World) × (wc₂ : World) × (server' : TcpPcb)
    × (client' : TcpPcb) × (send_test 0 (world_of addr_one client_end) ≡ done (some read))
    × (send_round env 0 text read 0 (world_of addr_one client_end)
        ≡ done (SendRound.continues 3, wc₁))
    × (segment_arrives env
          (data_segment 101 501 65535 text endpoint_two endpoint_one 7)
          (world_of addr_two server_end)
        ≡ done ws₁)
    × (segment_arrives env (segment_with 501 104 0 0x10 65532 endpoint_one endpoint_two 8) wc₁
        ≡ done wc₂)
    × (get_elem? ws₁.pcbs 0 ≡ some server')
    × (get_elem? wc₂.pcbs 0 ≡ some client')
    × IsDelivered text server_end server' client' (world_of addr_two server_end) ws₁
send_round-IsDelivered_example =
    send_round-IsDelivered env 7 8 (world_of addr_two server_end) (world_of addr_one client_end) 0 0
      server_end client_end text (quiet_host addr_two 129) (quiet_host addr_one 129) 3 0 refl refl
      found_server_end found_client_end
      (record { server_state = refl; client_state = refl; to_server = refl; to_client = refl })
      (omega arith) (record { all_acked = refl; unqueued = refl }) refl (omega arith) (omega arith)
      (omega arith) (omega arith) (omega arith) (omega arith) sent_text sent_ack

abbrev read_of_end : SendState
read_of_end = record { window = 65535; next = 101; una = 101; mss = 1460 }

send_round_lem_example :
    (r : SendRound) × (w' : World) × (send_round env 0 text read_of_end 0
        (world_of addr_one client_end)
      ≡ done (r, w'))
    × Ends read_of_end 3 0 r
send_round_lem_example =
    send_round_lem env 0 text read_of_end 0 (world_of addr_one client_end) client_end
      (quiet_host addr_one 129) 3 (omega arith) refl (omega arith) (omega arith) (omega arith)
      sent_text

abbrev text_arrival : Arrival
text_arrival = data_segment 101 501 65535 text endpoint_two endpoint_one 7

abbrev start : World
start = world_of addr_two server_end

abbrev with_text : World
with_text = put_pcb (record start { host = quiet_host addr_two 129 }) 0 (extended server_end text)

abbrev read_once : World
read_once = put_pcb with_text 0 (record (extended server_end text) {
  buf = 33 ∷ [];
  recv_context = record { next = 104; window = 65534; urg_ptr = 0 };
})

text_taken : process_text env text_arrival 0 TcpPcbState.established start ≡ done (go with_text)
unfolding process_text take_text send_from output queued tcp_flag_exists wake
text_taken = rw sent_ack refl

two_read : receive_take 0 2 none with_text ≡ done (104 ∷ 105 ∷ [], read_once)
unfolding receive_take
two_read = refl

two_steps : History 0 start text (104 ∷ 105 ∷ []) read_once
two_steps =
    reads 2 none (104 ∷ 105 ∷ []) {posted = text} {taken = []} {now = with_text}
      (arrives env text_arrival TcpPcbState.established (go with_text) {posted = []} {taken = []}
        {now = start} starts (record { measured = refl; small = omega arith }) refl text_taken)
      two_read

History-IsHolding_example :
    (rest : List ℕ) × IsHolding 0 rest read_once × ([] ++ text ≡ 104 ∷ 105 ∷ [] ++ rest)
History-IsHolding_example =
    History-IsHolding [] (record { pcb = server_end; there = refl; window = refl; held = refl })
      two_steps
