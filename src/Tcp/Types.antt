-- ===== src/Tcp/Types.antt =====
-- The constants, headers and control blocks of src/protocols/ip/tcp.rs. Times are in microseconds.
use rust_user_net.Base.{
  ℕ, ◌+◌, bit_and, List, [], ◌∷◌, ◌++◌, Option, none, Bool, true, false, not, Run, done, ◌>>◌,
  check, ltb, ◌==◌, ◌^◌,
}
use rust_user_net.Utils.Byte.{bytes_u16, bytes_u32}
use rust_user_net.Ip.Route.{IpEndpoint, ip_addr_any}

abbrev pub tcp_pcb_count : ℕ
tcp_pcb_count = 16

abbrev pub tcp_default_itvl_micros : ℕ
tcp_default_itvl_micros = 200000

abbrev pub tcp_retransmit_timout_sec : ℕ
tcp_retransmit_timout_sec = 12

abbrev pub tcp_timewait_sec : ℕ
tcp_timewait_sec = 30

abbrev pub tcp_src_port_min : ℕ
tcp_src_port_min = 49152

abbrev pub tcp_src_port_max : ℕ
tcp_src_port_max = 65535

abbrev pub pcb_buf_len : ℕ
pcb_buf_len = 65535

pub data TcpFlag : Type 0 where
  fin syn rst psh ack urg : TcpFlag

-- `flag as u8`.
abbrev pub flag_as_u8 : TcpFlag → ℕ
flag_as_u8 TcpFlag.fin = 0x01
flag_as_u8 TcpFlag.syn = 0x02
flag_as_u8 TcpFlag.rst = 0x04
flag_as_u8 TcpFlag.psh = 0x08
flag_as_u8 TcpFlag.ack = 0x10
flag_as_u8 TcpFlag.urg = 0x20

unfoldable pub tcp_flag_is : ℕ → TcpFlag → Bool
tcp_flag_is flags flag = bit_and flags 0x3f == flag_as_u8 flag

unfoldable pub tcp_flag_exists : ℕ → TcpFlag → Bool
tcp_flag_exists flags flag = not (bit_and (bit_and flags 0x3f) (flag_as_u8 flag) == 0)

pub record TcpHeader : Type 0 where
  pub src_port : ℕ
  pub dst_port : ℕ
  pub seq_num : ℕ
  pub ack_num : ℕ
  pub offset : ℕ
  pub flags : ℕ
  pub window : ℕ
  pub sum : ℕ
  pub urg_ptr : ℕ

abbrev pub tcp_hdr_size : ℕ
tcp_hdr_size = 20

-- `to_u8_slice::<TcpHeader>`.
abbrev pub header_bytes : TcpHeader → List ℕ
header_bytes h =
    bytes_u16 h.src_port
    ++ (bytes_u16 h.dst_port
        ++ (bytes_u32 h.seq_num
            ++ (bytes_u32 h.ack_num
                ++ (h.offset
                    ∷ h.flags
                    ∷ (bytes_u16 h.window ++ (bytes_u16 h.sum ++ bytes_u16 h.urg_ptr))))))

pub record TcpSegmentInfo : Type 0 where
  pub seq_num : ℕ
  pub ack_num : ℕ
  pub len : ℕ
  pub window : ℕ
  pub urg_ptr : ℕ

pub record TcpPcbSendContext : Type 0 where
  pub next : ℕ
  pub una : ℕ
  pub window : ℕ
  pub urg_ptr : ℕ
  pub wl1 : ℕ
  pub wl2 : ℕ

pub record TcpPcbRecvContext : Type 0 where
  pub next : ℕ
  pub window : ℕ
  pub urg_ptr : ℕ

pub data TcpPcbState : Type 0 where
  free closed listen syn_sent syn_received established fin_wait1 fin_wait2 closing time_wait
        close_wait last_ack :
      TcpPcbState

-- A state as a number, in the order of the declaration; `==` compares these.
abbrev pub state_tag : TcpPcbState → ℕ
state_tag TcpPcbState.free = 0
state_tag TcpPcbState.closed = 1
state_tag TcpPcbState.listen = 2
state_tag TcpPcbState.syn_sent = 3
state_tag TcpPcbState.syn_received = 4
state_tag TcpPcbState.established = 5
state_tag TcpPcbState.fin_wait1 = 6
state_tag TcpPcbState.fin_wait2 = 7
state_tag TcpPcbState.closing = 8
state_tag TcpPcbState.time_wait = 9
state_tag TcpPcbState.close_wait = 10
state_tag TcpPcbState.last_ack = 11

abbrev pub state_eq : TcpPcbState → TcpPcbState → Bool
state_eq s t = state_tag s == state_tag t

pub data TcpPcbMode : Type 0 where
  not_set rfc793 socket : TcpPcbMode

abbrev pub is_socket : TcpPcbMode → Bool
is_socket TcpPcbMode.socket = true
is_socket TcpPcbMode.not_set = false
is_socket TcpPcbMode.rfc793 = false

pub record TcpDataQueueEntry : Type 0 where
  pub first_sent_at : ℕ
  pub last_sent_at : ℕ
  pub retry_interval : ℕ
  pub seq_num : ℕ
  pub flags : ℕ
  pub payload : List ℕ

pub record TcpPcb : Type 0 where
  pub state : TcpPcbState
  pub mode : TcpPcbMode
  pub local : IpEndpoint
  pub remote : IpEndpoint
  pub send_context : TcpPcbSendContext
  pub iss : ℕ
  pub recv_context : TcpPcbRecvContext
  pub irs : ℕ
  pub mtu : ℕ
  pub mss : ℕ
  pub buf : List ℕ
  pub wait_time : Option ℕ
  pub sender : Option ℕ
  pub data_queue : List TcpDataQueueEntry
  pub parent_id : Option ℕ
  pub backlog : List ℕ

abbrev pub any_endpoint : IpEndpoint
any_endpoint = record { address = ip_addr_any; port = 0 }

-- `TcpPcb::new`.
abbrev pub new_pcb : TcpPcb
new_pcb = record {
  state = TcpPcbState.free;
  mode = TcpPcbMode.not_set;
  local = any_endpoint;
  remote = any_endpoint;
  send_context = record { next = 0; una = 0; window = 0; urg_ptr = 0; wl1 = 0; wl2 = 0 };
  iss = 0;
  recv_context = record { next = 0; window = 0; urg_ptr = 0 };
  irs = 0;
  mtu = 0;
  mss = 0;
  buf = [];
  wait_time = none;
  sender = none;
  data_queue = [];
  parent_id = none;
  backlog = [];
}

-- `a + b` on `u32`, which is checked.
abbrev pub add_u32 : ℕ → ℕ → Run ℕ
add_u32 a b = check (ltb (a + b) (2 ^ 32)) >> done (a + b)
