-- ===== src/Arp/Exchange.antt =====
-- A request of one host and the reply of another, at the handlers of src/protocols/arp.rs.
use rust_user_net.Base.{
  take-append, drop-append, ℕ, zero, suc, ◌-◌, ◌/◌, ◌%◌, ◌^◌, ◌≤◌, ◌<◌, ◌≡◌, refl, ap, List, [],
  ◌∷◌, ◌++◌, some, Run, Res, done, ok, ◌==◌, length, length-append, take, arith, ◌∙◌, if◌then◌else◌,
  ge→ltb, eq→==,
}
use rust_user_net.Utils.Byte.{be_to_le_u16, bytes_u32, of_bytes_u16}
use rust_user_net.Utils.Byte.Swap.{conversions_inverse}
use rust_user_net.Net.{NetInterfaceFamily}
use rust_user_net.Device.Types.{Env, get_interface, mac_of}
use rust_user_net.Ip.Route.{IpInterface}
use rust_user_net.Ip.Header.Valid.{le_to_be_u16-lt}
use rust_user_net.Context.{Host}
use rust_user_net.Arp.Table.{get, update, get-update}
use rust_user_net.Arp.Message.{ArpMessage, message_at, message_bytes, bytes_to_message, u32_of}
use rust_user_net.Arp.Handlers.{
  arp_header, request_msg, reply_msg, arp_reply, learn, input_message, input,
}

take-all : (n : ℕ) (xs : List ℕ) → length xs ≡ n → take n xs ≡ xs
take-all zero [] h = refl
take-all zero (x ∷ xs) h = absurd (omega arith)
take-all (suc n) [] h = absurd (omega arith)
take-all (suc n) (x ∷ xs) h = ap (◌∷◌ x) (take-all n xs (omega arith))

-- The fields are of their widths.
pub record IsMessage (msg : ArpMessage) : Type 0 where
  pub hw_space_small : msg.header.hw_addr_space < 2 ^ 16
  pub proto_space_small : msg.header.proto_addr_space < 2 ^ 16
  pub op_small : msg.header.op < 2 ^ 16
  pub sender_hw : length msg.sender_hw_addr ≡ 6
  pub sender_proto : length msg.sender_proto_addr ≡ 4
  pub target_hw : length msg.target_hw_addr ≡ 6
  pub target_proto : length msg.target_proto_addr ≡ 4

length-message_bytes : (msg : ArpMessage) → IsMessage msg → length (message_bytes msg) ≡ 28
unfolding message_bytes
length-message_bytes msg v = omega (
  arith,
  v.sender_hw,
  v.sender_proto,
  v.target_hw,
  v.target_proto,
  length-append msg.sender_hw_addr
      (msg.sender_proto_addr ++ (msg.target_hw_addr ++ msg.target_proto_addr)),
  length-append msg.sender_proto_addr (msg.target_hw_addr ++ msg.target_proto_addr),
  length-append msg.target_hw_addr msg.target_proto_addr,
)

of_bytes_u16-bytes : (v : ℕ) → v < 2 ^ 16 → of_bytes_u16 (v % 256) (v / 256 % 256) ≡ v
of_bytes_u16-bytes v h = omega arith

message_at-message_bytes : (msg : ArpMessage) → IsMessage msg → message_at (message_bytes msg) ≡ msg
unfolding message_bytes
message_at-message_bytes msg v =
    let targets = msg.target_hw_addr ++ msg.target_proto_addr in
    let addrs = msg.sender_proto_addr ++ targets in
    rw
      (
        of_bytes_u16-bytes msg.header.hw_addr_space v.hw_space_small,
        of_bytes_u16-bytes msg.header.proto_addr_space v.proto_space_small,
        of_bytes_u16-bytes msg.header.op v.op_small,
        take-append 6 msg.sender_hw_addr addrs v.sender_hw,
        drop-append 6 0 6 msg.sender_hw_addr addrs v.sender_hw (omega arith),
        drop-append 6 4 10 msg.sender_hw_addr addrs v.sender_hw (omega arith),
        drop-append 6 10 16 msg.sender_hw_addr addrs v.sender_hw (omega arith),
        take-append 4 msg.sender_proto_addr targets v.sender_proto,
        drop-append 4 0 4 msg.sender_proto_addr targets v.sender_proto (omega arith),
        drop-append 4 6 10 msg.sender_proto_addr targets v.sender_proto (omega arith),
        take-append 6 msg.target_hw_addr msg.target_proto_addr v.target_hw,
        drop-append 6 0 6 msg.target_hw_addr msg.target_proto_addr v.target_hw (omega arith),
        take-all 4 msg.target_proto_addr v.target_proto,
      )
      refl

-- A message is read back from its bytes.
pub bytes_to_message-message_bytes :
    (msg : ArpMessage) → IsMessage msg → bytes_to_message (message_bytes msg) ≡ done msg
unfolding bytes_to_message
bytes_to_message-message_bytes msg v =
    rw (length-message_bytes msg v, message_at-message_bytes msg v) refl

-- The host answers at this interface, and has a hardware address.
pub record IsHost (host : Host) (iface : IpInterface) : Type 0 where
  pub found : get_interface host.device NetInterfaceFamily.ip ≡ some iface
  pub unicast_small : iface.unicast < 2 ^ 32
  pub mac_long : length (mac_of host.device) ≡ 6

u32_of-bytes_u32 : (v : ℕ) → v < 2 ^ 32 → u32_of (bytes_u32 v) ≡ v
u32_of-bytes_u32 v h = omega arith

-- What a host does with a message for it from another.
abbrev answered : Env → IpInterface → ArpMessage → Host → Run (Res (Unit {0}) × Host)
answered env iface msg host =
    if be_to_le_u16 msg.header.op == 1
    then arp_reply env iface msg.sender_hw_addr (u32_of msg.sender_proto_addr) msg.sender_hw_addr
        (learn env msg host)
    else done (ok tt, learn env msg host)

-- A message with the header of this stack.
input_message-for_host :
    (env : Env) (host : Host) (iface : IpInterface) (msg : ArpMessage) (op : ℕ)
    → IsHost host iface
    → msg.header ≡ arp_header op
    → msg.target_proto_addr ≡ bytes_u32 iface.unicast
    → input_message env msg host ≡ answered env iface msg host
unfolding input_message
input_message-for_host env host iface msg op v head target =
    let space = conversions_inverse 1 0 (omega arith) (omega arith) in
    let proto = conversions_inverse 0x800 0 (omega arith) (omega arith) in
    rw
      (
        head,
        space.0,
        proto.0,
        v.found,
        target,
        u32_of-bytes_u32 iface.unicast v.unicast_small,
        eq→== iface.unicast iface.unicast refl,
        answered,
      )
      refl

request-IsMessage :
    (host : Host) (iface : IpInterface) (target_ip : ℕ)
    → IsHost host iface
    → IsMessage (request_msg host.device iface target_ip)
unfolding request_msg
request-IsMessage host iface target_ip v = record {
  hw_space_small = le_to_be_u16-lt 1 (omega arith);
  proto_space_small = le_to_be_u16-lt 0x800 (omega arith);
  op_small = le_to_be_u16-lt 1 (omega arith);
  sender_hw = v.mac_long;
  sender_proto = refl;
  target_hw = refl;
  target_proto = refl;
}

reply-IsMessage :
    (host : Host) (iface : IpInterface) (mac : List ℕ) (target_ip : ℕ)
    → IsHost host iface
    → length mac ≡ 6
    → IsMessage (reply_msg host.device iface mac target_ip)
unfolding reply_msg
reply-IsMessage host iface mac target_ip v h = record {
  hw_space_small = le_to_be_u16-lt 1 (omega arith);
  proto_space_small = le_to_be_u16-lt 0x800 (omega arith);
  op_small = le_to_be_u16-lt 2 (omega arith);
  sender_hw = v.mac_long;
  sender_proto = refl;
  target_hw = h;
  target_proto = refl;
}

-- The host after it learned that an address has a hardware address.
abbrev pub learned : Env → ℕ → List ℕ → Host → Host
learned env ip mac host = record host {
  contexts = record (host.contexts) { arp_table = update host.contexts.arp_table env.now ip mac };
}

-- A request for the address of a host, as its bytes arrive there: the host learns the sender's
-- address and answers to it with a reply.
pub input-request :
    (env : Env) (asking asked : Host) (from to : IpInterface)
    → IsHost asking from
    → IsHost asked to
    → input env (message_bytes (request_msg asking.device from to.unicast)) asked
      ≡ arp_reply env to
          (mac_of asking.device)
          from.unicast
          (mac_of asking.device)
          (learned env from.unicast (mac_of asking.device) asked)
unfolding input request_msg
input-request env asking asked from to v w =
    let op = conversions_inverse 1 0 (omega arith) (omega arith) in
    rw
      (
        bytes_to_message-message_bytes _ (request-IsMessage asking from to.unicast v),
        input_message-for_host env asked to (request_msg asking.device from to.unicast) 1 w refl
            refl,
        op.0,
        u32_of-bytes_u32 from.unicast v.unicast_small,
      )
      refl

-- The reply, as its bytes arrive at the host that asked: it learns the address of the other one,
-- sends nothing, and from then on, for four hours, resolves the address to it.
pub input-reply :
    (env : Env) (asking asked : Host) (from to : IpInterface) (later : ℕ)
    → IsHost asking from
    → IsHost asked to
    → env.now ≤ later
    → (later - env.now) / 1000000 ≤ 14400
    → (input env
          (message_bytes (reply_msg asked.device to (mac_of asking.device) from.unicast))
          asking
        ≡ done (ok tt, learned env to.unicast (mac_of asked.device) asking))
      × (get
            (learned env to.unicast (mac_of asked.device) asking).contexts.arp_table
            later
            to.unicast
          ≡ done (
            some (mac_of asked.device),
            (learned env to.unicast (mac_of asked.device) asking).contexts.arp_table,
          ))
unfolding input reply_msg
input-reply env asking asked from to later v w after fresh =
    let op = conversions_inverse 2 0 (omega arith) (omega arith) in
    (
      rw
          (
            bytes_to_message-message_bytes _
                (reply-IsMessage asked to (mac_of asking.device) from.unicast w v.mac_long),
            input_message-for_host env asking from
                (reply_msg asked.device to (mac_of asking.device) from.unicast) 2 v refl refl,
            op.0,
            u32_of-bytes_u32 to.unicast w.unicast_small,
          )
          refl,
      get-update asking.contexts.arp_table env.now later to.unicast (mac_of asked.device) after
          ∙ rw (ge→ltb 14400 ((later - env.now) / 1000000) fresh) refl,
    )
