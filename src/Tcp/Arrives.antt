-- ===== src/Tcp/Arrives.antt =====
-- `segment_arrives` and `input` of src/protocols/ip/tcp.rs.
use rust_user_net.Base.{
  ℕ, ◌+◌, ◌-◌, ◌*◌, ◌/◌, ◌%◌, ◌^◌, List, none, some, not, ◌||◌, Run, done, fault, ◌>>=◌, ◌>>◌,
  check, Res, ok, err, leb, ◌==◌, if◌then◌else◌, length, drop,
}
use rust_user_net.Utils.Byte.{be_to_le_u16, be_to_le_u32, le_to_be_u16, of_bytes_u16, of_bytes_u32}
use rust_user_net.Utils.Cksum.{cksum16}
use rust_user_net.Device.Types.{Env}
use rust_user_net.Device.Ethernet.{byte_at}
use rust_user_net.Ip.Route.{IpInterface, ip_addr_any}
use rust_user_net.Ip.Header.{IpProtocolType, ip_protocol_as_u8}
use rust_user_net.Udp.Datagram.{pseudo_sum}
use rust_user_net.Tcp.Types.{TcpPcb, TcpPcbState, TcpFlag, TcpHeader, tcp_hdr_size, tcp_flag_exists}
use rust_user_net.Tcp.Pcbs.{select, pcb_by_id}
use rust_user_net.Tcp.World.{World, Arrival, world_of, and_then}
use rust_user_net.Tcp.Early.{arrives_closed, arrives_listen, arrives_syn_sent}
use rust_user_net.Tcp.Phases.{
  check_sequence, check_rst, check_syn, check_ack, process_text, check_fin,
}

-- Behind the LISTEN and SYN-SENT states.
unfoldable pub arrives_connection : Env → Arrival → ℕ → TcpPcbState → World → Run World
arrives_connection env a pcb_id pcb_state w = do
  f₁ ← check_sequence env a pcb_id pcb_state w
  f₂ ← and_then f₁ (check_rst a pcb_id pcb_state)
  f₃ ← and_then f₂ (check_syn a pcb_id pcb_state)
  f₄ ← and_then f₃ (check_ack env a pcb_id pcb_state)
  f₅ ← and_then f₄ (process_text env a pcb_id pcb_state)
  f₆ ← and_then f₅ (check_fin env a pcb_id pcb_state)
  done (world_of f₆)

-- By the state of the selected block.
unfoldable pub arrives_at : Env → Arrival → ℕ → TcpPcb → TcpPcbState → World → Run World
arrives_at env a pcb_id pcb TcpPcbState.closed w = arrives_closed env a w
arrives_at env a pcb_id pcb TcpPcbState.listen w = arrives_listen env a pcb_id pcb w
arrives_at env a pcb_id pcb TcpPcbState.syn_sent w = arrives_syn_sent env a pcb_id pcb w
arrives_at env a pcb_id pcb pcb_state w = arrives_connection env a pcb_id pcb_state w

unfoldable pub segment_arrives : Env → Arrival → World → Run World
segment_arrives env a w = elim (select w.pcbs a.local (some a.remote)) [
  | none ↦ arrives_closed env a w
  | some pcb_id ↦ (do pcb ← pcb_by_id w.pcbs pcb_id; arrives_at env a pcb_id pcb pcb.state w)
]

-- `bytes_to_struct::<TcpHeader>`, which reads 20 bytes whatever the slice holds.
unfoldable pub bytes_to_header : List ℕ → Run TcpHeader
bytes_to_header bytes =
    if leb tcp_hdr_size (length bytes)
    then done (record {
      src_port = of_bytes_u16 (byte_at bytes 0) (byte_at bytes 1);
      dst_port = of_bytes_u16 (byte_at bytes 2) (byte_at bytes 3);
      seq_num =
          of_bytes_u32 (byte_at bytes 4) (byte_at bytes 5) (byte_at bytes 6) (byte_at bytes 7);
      ack_num =
          of_bytes_u32 (byte_at bytes 8) (byte_at bytes 9) (byte_at bytes 10) (byte_at bytes 11);
      offset = byte_at bytes 12;
      flags = byte_at bytes 13;
      window = of_bytes_u16 (byte_at bytes 14) (byte_at bytes 15);
      sum = of_bytes_u16 (byte_at bytes 16) (byte_at bytes 17);
      urg_ptr = of_bytes_u16 (byte_at bytes 18) (byte_at bytes 19);
    })
    else fault

-- The length of a segment in sequence numbers: its data, and one for each of SYN and FIN.
abbrev pub seg_len : ℕ → ℕ → ℕ
seg_len data_len flags =
    data_len
    + (if tcp_flag_exists flags TcpFlag.syn then 1 else 0)
    + (if tcp_flag_exists flags TcpFlag.fin then 1 else 0)

-- The segment that a header announces, in `len` bytes.
unfoldable pub arrival_of : List ℕ → ℕ → ℕ → ℕ → TcpHeader → ℕ → Run Arrival
arrival_of bytes len src dst header random = do
  let header_len = header.offset / 2 ^ 4 * 2 ^ 2
  check (leb header_len len)
  done (record {
    seg = record {
      seq_num = be_to_le_u32 header.seq_num;
      ack_num = be_to_le_u32 header.ack_num;
      len = seg_len (len - header_len) header.flags % 2 ^ 16;
      window = be_to_le_u16 header.window;
      urg_ptr = be_to_le_u16 header.urg_ptr;
    };
    flags = header.flags;
    payload = drop tcp_hdr_size bytes;
    len = len - header_len;
    local = record { address = dst; port = header.dst_port };
    remote = record { address = src; port = header.src_port };
    random = random;
  })

unfoldable pub input :
    Env → List ℕ → ℕ → ℕ → ℕ → IpInterface → ℕ → World → Run (Res (Unit {0}) × World)
input env bytes len src dst iface random w = do
  header ← bytes_to_header bytes
  check (leb tcp_hdr_size len)
  init ← pseudo_sum (ip_protocol_as_u8 IpProtocolType.tcp) src dst (le_to_be_u16 (len % 2 ^ 16))
  sum ← cksum16 bytes len init
  if not (sum == 0) then done (err, w) else (do
    check (
        not (
          src == ip_addr_any
          || src == iface.broadcast
          || dst == ip_addr_any
          || dst == iface.broadcast))
    a ← arrival_of bytes len src dst header random
    w' ← segment_arrives env a w
    done (ok tt, w'))
