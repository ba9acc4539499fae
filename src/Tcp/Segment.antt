-- ===== src/Tcp/Segment.antt =====
-- `output_segment` and `output` of src/protocols/ip/tcp.rs.
use rust_user_net.Base.{
  ℕ, ◌+◌, ◌*◌, ◌/◌, ◌%◌, ◌^◌, bit_and, List, ◌++◌, ◌||◌, Run, done, ◌>>=◌, ◌>>◌, unwrap_res, ltb,
  if◌then◌else◌, length, set,
}
use rust_user_net.Utils.Byte.{le_to_be_u16, le_to_be_u32}
use rust_user_net.Utils.Cksum.{cksum16}
use rust_user_net.Device.Types.{Env}
use rust_user_net.Ip.Route.{IpEndpoint}
use rust_user_net.Ip.Header.{IpProtocolType, ip_protocol_as_u8}
use rust_user_net.Ip.Output
use rust_user_net.Context.{Host}
use rust_user_net.Udp.Datagram.{pseudo_sum}
use rust_user_net.Tcp.Types.{
  TcpHeader, TcpFlag, TcpPcb, header_bytes, tcp_hdr_size, tcp_flag_exists,
}
use rust_user_net.Tcp.Pcbs.{add_data_queue}

-- The bytes of a segment, with its checksum over bytes 16 and 17. The pseudo header of tcp.rs is
-- declared as that of udp.rs.
unfoldable pub segment : ℕ → ℕ → ℕ → ℕ → List ℕ → IpEndpoint → IpEndpoint → Run (List ℕ)
segment seq_num ack_num flags window tcp_data local remote = do
  let total_len = length tcp_data + tcp_hdr_size
  let tcp_header : TcpHeader = record {
    src_port = local.port;
    dst_port = remote.port;
    seq_num = le_to_be_u32 seq_num;
    ack_num = le_to_be_u32 ack_num;
    offset = tcp_hdr_size / 2 ^ 2 * 2 ^ 4 % 2 ^ 8;
    flags = flags;
    window = le_to_be_u16 window;
    sum = 0;
    urg_ptr = 0;
  }
  init ←
      pseudo_sum (ip_protocol_as_u8 IpProtocolType.tcp) local.address remote.address
        (le_to_be_u16 (total_len % 2 ^ 16))
  let bytes = header_bytes tcp_header ++ tcp_data
  sum ← cksum16 bytes total_len init
  done (set (set bytes 16 (bit_and sum 0xff00 / 2 ^ 8 % 2 ^ 8)) 17 (bit_and sum 0xff % 2 ^ 8))

unfoldable pub output_segment :
    Env → ℕ → ℕ → ℕ → ℕ → List ℕ → IpEndpoint → IpEndpoint → Host → Run (ℕ × Host)
output_segment env seq_num ack_num flags window tcp_data local remote host = do
  bytes ← segment seq_num ack_num flags window tcp_data local remote
  (res, host') ← Output.output env IpProtocolType.tcp bytes local.address remote.address host
  unwrap_res res
  done (length tcp_data, host')

-- The sequence number of the segment that `output` sends.
abbrev pub output_seq : TcpPcb → ℕ → ℕ
output_seq pcb flags = if tcp_flag_exists flags TcpFlag.syn then pcb.iss else pcb.send_context.next

-- The block after `output` queued the segment.
unfoldable pub queued : Env → TcpPcb → ℕ → List ℕ → TcpPcb
queued env pcb flags payload =
    if (tcp_flag_exists flags TcpFlag.syn || tcp_flag_exists flags TcpFlag.fin)
      || ltb 0 (length payload)
    then add_data_queue env.now pcb (output_seq pcb flags) flags payload
    else pcb

unfoldable pub output : Env → TcpPcb → ℕ → List ℕ → Host → Run (ℕ × TcpPcb × Host)
output env pcb flags payload host = do
  let pcb' = queued env pcb flags payload
  (sent, host') ←
      output_segment env (output_seq pcb flags) pcb.recv_context.next flags pcb.recv_context.window
        payload pcb.local pcb.remote host
  done (sent, pcb', host')
