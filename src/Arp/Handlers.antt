-- ===== src/Arp/Handlers.antt =====
-- The requests, replies and the input of src/protocols/arp.rs.
use rust_user_net.Base.{
  ℕ, List, Option, none, some, not, ◌||◌, Run, done, ◌>>=◌, unwrap, Res, ok, err, ◌==◌,
  if◌then◌else◌, replicate, take,
}
use rust_user_net.Utils.Byte.{be_to_le_u16, le_to_be_u16, bytes_u32}
use rust_user_net.Net.{ProtocolType, NetInterfaceFamily}
use rust_user_net.Ip.Route.{IpInterface}
use rust_user_net.Device.Types.{
  Env, NetDevice, NetDeviceType, get_interface, mac_of, device_type_eq, eth_addr_len,
}
use rust_user_net.Arp.Table.{get, update}
use rust_user_net.Arp.Message.{ArpHeader, ArpMessage, message_bytes, bytes_to_message, u32_of}
use rust_user_net.Context.{Host, transmit}

abbrev pub arp_hw_space_ether : ℕ
arp_hw_space_ether = 0x0001

abbrev pub arp_proto_space_ip : ℕ
arp_proto_space_ip = 0x0800

abbrev pub arp_op_request : ℕ
arp_op_request = 0x0001

abbrev pub arp_op_reply : ℕ
arp_op_reply = 0x0002

abbrev pub ip_addr_len : ℕ
ip_addr_len = 4

abbrev pub arp_header : ℕ → ArpHeader
arp_header op = record {
  hw_addr_space = le_to_be_u16 arp_hw_space_ether;
  proto_addr_space = le_to_be_u16 arp_proto_space_ip;
  hw_addr_len = eth_addr_len;
  proto_addr_len = ip_addr_len;
  op = le_to_be_u16 op;
}

unfoldable pub request_msg : NetDevice → IpInterface → ℕ → ArpMessage
request_msg device interface target_ip = record {
  header = arp_header arp_op_request;
  sender_hw_addr = mac_of device;
  sender_proto_addr = bytes_u32 interface.unicast;
  target_hw_addr = replicate 6 0;
  target_proto_addr = bytes_u32 target_ip;
}

unfoldable pub arp_request : Env → IpInterface → ℕ → Host → Run (Res (Unit {0}) × Host)
arp_request env interface target_ip host =
    transmit env ProtocolType.arp (message_bytes (request_msg host.device interface target_ip))
      (take 6 host.device.broadcast) host

unfoldable pub reply_msg : NetDevice → IpInterface → List ℕ → ℕ → ArpMessage
reply_msg device interface target_hw_addr target_ip = record {
  header = arp_header arp_op_reply;
  sender_hw_addr = mac_of device;
  sender_proto_addr = bytes_u32 interface.unicast;
  target_hw_addr = target_hw_addr;
  target_proto_addr = bytes_u32 target_ip;
}

unfoldable pub arp_reply :
    Env → IpInterface → List ℕ → ℕ → List ℕ → Host → Run (Res (Unit {0}) × Host)
arp_reply env interface target_hw_addr target_ip destination_hw_addr host =
    transmit env ProtocolType.arp
      (message_bytes (reply_msg host.device interface target_hw_addr target_ip)) destination_hw_addr
      host

-- The table of the host after the sender of a message was put in.
abbrev pub learn : Env → ArpMessage → Host → Host
learn env msg host = record host {
  contexts = record (host.contexts) {
    arp_table =
        update host.contexts.arp_table env.now (u32_of msg.sender_proto_addr) msg.sender_hw_addr;
  };
}

-- `arp::input`, from a message that was read.
unfoldable pub input_message : Env → ArpMessage → Host → Run (Res (Unit {0}) × Host)
input_message env msg host =
    if not (be_to_le_u16 msg.header.hw_addr_space == arp_hw_space_ether)
      || not (msg.header.hw_addr_len == eth_addr_len)
    then done (err, host)
    else if not (be_to_le_u16 msg.header.proto_addr_space == arp_proto_space_ip)
        || not (msg.header.proto_addr_len == ip_addr_len)
    then done (err, host)
    else do
      interface ← unwrap (get_interface host.device NetInterfaceFamily.ip)
      if not (interface.unicast == u32_of msg.target_proto_addr)
          then done (ok tt, host)
          else if be_to_le_u16 msg.header.op == arp_op_request
          then arp_reply env interface msg.sender_hw_addr (u32_of msg.sender_proto_addr)
              msg.sender_hw_addr (learn env msg host)
          else done (ok tt, learn env msg host)

unfoldable pub input : Env → List ℕ → Host → Run (Res (Unit {0}) × Host)
unfolding input_message
input env bytes host = do msg ← bytes_to_message bytes; input_message env msg host

-- `arp_resolve`: the answer of the table, or a request for it.
unfoldable pub arp_resolve : Env → IpInterface → ℕ → Host → Run (Res (Option (List ℕ)) × Host)
arp_resolve env interface target_ip host =
    if not (device_type_eq host.device.device_type NetDeviceType.ethernet)
    then done (err, host)
    else do
      (found, table) ← get host.contexts.arp_table env.now target_ip
      let host' = record host { contexts = record (host.contexts) { arp_table = table } }
      elim found [
        | some hw_addr ↦ done (ok (some hw_addr), host')
        | none ↦ (do
          (res, host'') ← arp_request env interface target_ip host'
          elim res [ ok _ ↦ done (ok none, host'') | err ↦ done (err, host'') ])
      ]
