-- ===== src/Arp/Message.antt =====
-- `ArpHeader` and `ArpMessage` of src/protocols/arp.rs, packed, and their bytes.
use rust_user_net.Base.{
  ℕ, List, ◌∷◌, ◌++◌, Run, done, fault, leb, length, take, drop, if◌then◌else◌,
}
use rust_user_net.Utils.Byte.{bytes_u16, of_bytes_u16, of_bytes_u32}
use rust_user_net.Device.Ethernet.{byte_at}

pub record ArpHeader : Type 0 where
  pub hw_addr_space : ℕ
  pub proto_addr_space : ℕ
  pub hw_addr_len : ℕ
  pub proto_addr_len : ℕ
  pub op : ℕ

pub record ArpMessage : Type 0 where
  pub header : ArpHeader
  pub sender_hw_addr : List ℕ
  pub sender_proto_addr : List ℕ
  pub target_hw_addr : List ℕ
  pub target_proto_addr : List ℕ

abbrev pub arp_message_size : ℕ
arp_message_size = 28

-- `to_u8_slice::<ArpMessage>`.
unfoldable pub message_bytes : ArpMessage → List ℕ
message_bytes msg =
    bytes_u16 msg.header.hw_addr_space
    ++ (bytes_u16 msg.header.proto_addr_space
        ++ (msg.header.hw_addr_len
            ∷ msg.header.proto_addr_len
            ∷ (bytes_u16 msg.header.op
                ++ (msg.sender_hw_addr
                    ++ (msg.sender_proto_addr ++ (msg.target_hw_addr ++ msg.target_proto_addr))))))

-- The fields at their offsets.
abbrev pub message_at : List ℕ → ArpMessage
message_at bytes = record {
  header = record {
    hw_addr_space = of_bytes_u16 (byte_at bytes 0) (byte_at bytes 1);
    proto_addr_space = of_bytes_u16 (byte_at bytes 2) (byte_at bytes 3);
    hw_addr_len = byte_at bytes 4;
    proto_addr_len = byte_at bytes 5;
    op = of_bytes_u16 (byte_at bytes 6) (byte_at bytes 7);
  };
  sender_hw_addr = take 6 (drop 8 bytes);
  sender_proto_addr = take 4 (drop 14 bytes);
  target_hw_addr = take 6 (drop 18 bytes);
  target_proto_addr = take 4 (drop 24 bytes);
}

-- `bytes_to_struct::<ArpMessage>`, which reads 28 bytes whatever the slice holds.
unfoldable pub bytes_to_message : List ℕ → Run ArpMessage
bytes_to_message bytes =
    if leb arp_message_size (length bytes) then done (message_at bytes) else fault

-- `bytes_to_struct::<u32>` of a field of four bytes.
abbrev pub u32_of : List ℕ → ℕ
u32_of bytes = of_bytes_u32 (byte_at bytes 0) (byte_at bytes 1) (byte_at bytes 2) (byte_at bytes 3)
