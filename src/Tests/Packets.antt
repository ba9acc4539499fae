-- ===== src/Tests/Packets.antt =====
-- Examples for the protocols that carry packets: ARP, IP, ICMP and UDP.
use rust_user_net.Utils.LinkedList.{Link, nil, node}
use rust_user_net.Net.{NetProtocol, ProtocolType}
use rust_user_net.Protocols.{shared_of, handle_data}
use rust_user_net.Protocols.Order.{give_all, all_packets, all_emptied, handle_data-give_all}
use rust_user_net.Ip.Input
use rust_user_net.Ip.Input.{Stack}
use rust_user_net.Ip.Delivery.{input-create_ip_header}
use rust_user_net.Udp.Pcbs.{UdpPcb, get_by_host}
use rust_user_net.Udp.Socket.{bind}
use rust_user_net.Udp.Bound.{bind-get_by_host}
use rust_user_net.Base.{
  ℕ, ◌≡◌, refl, List, [], ◌∷◌, ◌++◌, none, some, done, ok, true, length, arith, replicate, ◌>>=◌,
}
use rust_user_net.Utils.Byte.{be_to_le_u16}
use rust_user_net.Ip.Route.{lookup_ip_route}
use rust_user_net.Ip.Route.Longest.{Answer, lookup_ip_route-Answer}
use rust_user_net.Ip.Header.{
  IpProtocolType, IpHeader, header_bytes, bytes_to_header, create_ip_header, check_ip_header,
}
use rust_user_net.Ip.Header.Valid.{create-check}
use rust_user_net.Device.Types.{get_interface}
use rust_user_net.Context.{Host}
use rust_user_net.Arp.Table.{get, update, ArpTable, new_table}
use rust_user_net.Arp.Table.Age.{Learned, updates, entry_of, get-updates}
use rust_user_net.Arp.Message.{ArpMessage, message_bytes, bytes_to_message}
use rust_user_net.Arp.Handlers
use rust_user_net.Arp.Handlers.{request_msg, reply_msg, arp_reply, arp_header}
use rust_user_net.Arp.Exchange.{
  IsHost, learned, input-request, input-reply, bytes_to_message-message_bytes,
}
use rust_user_net.Icmp
use rust_user_net.Icmp.Echo
use rust_user_net.Channel.{Channels}
use rust_user_net.Udp.Pcbs.{UdpPcbs, UdpPcbState}
use rust_user_net.Udp.Datagram
use rust_user_net.Tests.{
  env, addr_one, addr_two, iface_of, device_of, route_of, routes, host_of, text, endpoint_two,
}

abbrev sockets : UdpPcbs
sockets = record {
  entries =
      record {
        state = UdpPcbState.open_;
        local_endpoint = endpoint_two;
        sender = some 0;
        data_entries = [];
      }
      ∷ [];
}

abbrev waiting : Channels
waiting = record { receiver_alive = true; queue = [] } ∷ []

create-check_example :
    (h : IpHeader) × (create_ip_header IpProtocolType.udp addr_one addr_two text 129 ≡ done h)
    × (bytes_to_header (header_bytes h ++ text) ≡ done h)
    × (check_ip_header h (length (header_bytes h ++ text)) 20 ≡ done (ok tt))
    × (be_to_le_u16 h.total_len ≡ length (header_bytes h ++ text))
create-check_example =
    create-check IpProtocolType.udp addr_one addr_two 129 text (omega arith) (omega arith)
      (omega arith) (omega arith)

lookup_ip_route-Answer_example :
    Answer addr_two
      (route_of 0 0 addr_two ∷ route_of 0x000200c0 0x00ffffff 0 ∷ [])
      (lookup_ip_route routes addr_two)
lookup_ip_route-Answer_example = lookup_ip_route-Answer routes addr_two

one-IsHost : IsHost (host_of addr_one 1) (iface_of addr_one)
unfolding get_interface
one-IsHost = record { found = refl; unicast_small = omega arith; mac_long = refl }

two-IsHost : IsHost (host_of addr_two 2) (iface_of addr_two)
unfolding get_interface
two-IsHost = record { found = refl; unicast_small = omega arith; mac_long = refl }

input-request_example :
    Handlers.input env
      (message_bytes (request_msg (device_of addr_one 1) (iface_of addr_one) addr_two))
      (host_of addr_two 2)
    ≡ arp_reply env
        (iface_of addr_two)
        (2 ∷ 0 ∷ 0 ∷ 0 ∷ 0 ∷ 1 ∷ [])
        addr_one
        (2 ∷ 0 ∷ 0 ∷ 0 ∷ 0 ∷ 1 ∷ [])
        (learned env addr_one (2 ∷ 0 ∷ 0 ∷ 0 ∷ 0 ∷ 1 ∷ []) (host_of addr_two 2))
input-request_example =
    input-request env (host_of addr_one 1) (host_of addr_two 2) (iface_of addr_one)
      (iface_of addr_two) one-IsHost two-IsHost

abbrev taught : Host
taught = learned env addr_two (2 ∷ 0 ∷ 0 ∷ 0 ∷ 0 ∷ 2 ∷ []) (host_of addr_one 1)

input-reply_example :
    (Handlers.input env
        (message_bytes (
          reply_msg
            (device_of addr_two 2)
            (iface_of addr_two)
            (2 ∷ 0 ∷ 0 ∷ 0 ∷ 0 ∷ 1 ∷ [])
            addr_one))
        (host_of addr_one 1)
      ≡ done (ok tt, taught))
    × (get taught.contexts.arp_table 6000000 addr_two
        ≡ done (some (2 ∷ 0 ∷ 0 ∷ 0 ∷ 0 ∷ 2 ∷ []), taught.contexts.arp_table))
input-reply_example =
    input-reply env (host_of addr_one 1) (host_of addr_two 2) (iface_of addr_one)
      (iface_of addr_two) 6000000 one-IsHost two-IsHost (omega arith) (omega arith)

abbrev message : ArpMessage
message = record {
  header = record {
    hw_addr_space = 256;
    proto_addr_space = 8;
    hw_addr_len = 6;
    proto_addr_len = 4;
    op = 256;
  };
  sender_hw_addr = 2 ∷ 0 ∷ 0 ∷ 0 ∷ 0 ∷ 1 ∷ [];
  sender_proto_addr = 192 ∷ 0 ∷ 2 ∷ 1 ∷ [];
  target_hw_addr = replicate 6 0;
  target_proto_addr = 192 ∷ 0 ∷ 2 ∷ 2 ∷ [];
}

bytes_to_message-message_bytes_example : bytes_to_message (message_bytes message) ≡ done message
bytes_to_message-message_bytes_example = bytes_to_message-message_bytes message (record {
  hw_space_small = omega arith;
  proto_space_small = omega arith;
  op_small = omega arith;
  sender_hw = refl;
  sender_proto = refl;
  target_hw = refl;
  target_proto = refl;
})

abbrev ping : Echo.Fields
ping = record { icmp_type = 8; code = 0; values = 0x01000200; icmp_data = text }

input-message_example :
    (bytes : List ℕ) × (Icmp.message 8 0 0x01000200 text 3 ≡ done bytes)
    × (Icmp.input env bytes
          (length bytes)
          addr_one
          addr_two
          (iface_of addr_two)
          (host_of addr_two 2)
        ≡ Echo.echoed env ping addr_one addr_two (iface_of addr_two) (host_of addr_two 2))
input-message_example =
    Echo.input-message env ping addr_one addr_two (iface_of addr_two) (host_of addr_two 2) (record {
      type_small = omega arith;
      code_small = omega arith;
      values_small = omega arith;
      fits = omega arith;
      data_bytes = omega arith;
    })

abbrev later_learned : List Learned
later_learned = record { at = 1500000; address = addr_two; hw_address = 2 ∷ [] } ∷ []

get-updates_example :
    (table' : ArpTable) × (get
        (updates (update new_table 1000000 addr_one (1 ∷ [])) later_learned)
        2000000
        addr_one
      ≡ done (some (1 ∷ []), table'))
    × (table'.entries addr_one ≡ some (entry_of 1000000 addr_one (1 ∷ [])))
    × (table'.entries addr_two
        ≡ (updates (update new_table 1000000 addr_one (1 ∷ [])) later_learned).entries addr_two)
get-updates_example =
    get-updates new_table 1000000 2000000 addr_one addr_two (1 ∷ []) later_learned (omega arith)
      (omega arith) (omega arith)

abbrev stack : Stack
stack = record { host = host_of addr_two 2; udp_pcbs = sockets; tcp_pcbs = []; channels = waiting }

input-create_ip_header_example :
    (h : IpHeader) × (create_ip_header IpProtocolType.udp addr_one addr_two text 129 ≡ done h)
    × (Input.input env (header_bytes h ++ text) (length (header_bytes h ++ text)) 7 stack
        ≡ Input.dispatch env IpProtocolType.udp text 3 addr_one addr_two
            (iface_of addr_two)
            7
            stack)
input-create_ip_header_example =
    input-create_ip_header IpProtocolType.udp addr_one addr_two 129 text (omega arith) env
      (iface_of addr_two) 7 stack (omega arith) (omega arith) (omega arith) two-IsHost.found refl

abbrev unbound : UdpPcb
unbound = record {
  state = UdpPcbState.open_;
  local_endpoint = record { address = 0; port = 0 };
  sender = none;
  data_entries = [];
}

abbrev open_sockets : UdpPcbs
open_sockets = record { entries = unbound ∷ unbound ∷ [] }

nobody_lem : get_by_host open_sockets addr_two 0x5000 ≡ none
unfolding get_by_host
nobody_lem = refl

bind-get_by_host_example :
    (pcbs' : UdpPcbs) × (bind open_sockets 1 endpoint_two ≡ done pcbs')
    × (get_by_host pcbs' addr_two 0x5000 ≡ some 1)
bind-get_by_host_example = bind-get_by_host open_sockets 1 unbound endpoint_two refl refl nobody_lem

abbrev queues : Link NetProtocol
queues =
    node
      (record {
        protocol_type = ProtocolType.unknown;
        input_head = record { irq = 37; payload = some text; len = 3 } ∷ [];
      })
      nil

handle_data-give_all_example :
    handle_data env (λ left. 7) queues (node (device_of addr_two 2) nil) (shared_of stack)
    ≡ give_all env
        (λ left. 7)
        (all_packets queues)
        (node (device_of addr_two 2) nil, shared_of stack)
      >>= λ s. done (all_emptied queues, s.0, s.1)
handle_data-give_all_example =
    handle_data-give_all env (λ left. 7) queues (node (device_of addr_two 2) nil) (shared_of stack)
