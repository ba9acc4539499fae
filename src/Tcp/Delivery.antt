-- ===== src/Tcp/Delivery.antt =====
-- A segment that `output_segment` of src/protocols/ip/tcp.rs makes, at `input` of another stack.
use rust_user_net.Base.{
  Bool, true, false, not, check, panic, ◌>>◌, if◌then◌else◌, ℕ, ◌+◌, ◌-◌, ◌*◌, ◌/◌, ◌%◌, ◌^◌, ◌≤◌,
  ◌<◌, ◌≡◌, refl, ap, List, ◌++◌, Run, done, ok, ◌==◌, leb, length, All, All-append, arith, ◌∙◌,
  sym, bit_and, ◌>>=◌, ◌||◌,
}
use rust_user_net.Utils.Byte.{be_to_le_u16, le_to_be_u16, le_to_be_u32, of_bytes_u16}
use rust_user_net.Utils.Byte.Swap.{byte_swap_u16_lem, byte_swap_u32_lem, conversions_inverse}
use rust_user_net.Utils.Cksum.{cksum16}
use rust_user_net.Utils.Cksum.Sum.{IsByte}
use rust_user_net.Utils.Cksum.Stamp.{stamp, cksum16-stamp}
use rust_user_net.Device.Types.{Env}
use rust_user_net.Ip.Route.{IpEndpoint, IpInterface, ip_addr_any}
use rust_user_net.Ip.Header.Valid.{le_to_be_u16-lt}
use rust_user_net.Udp.Datagram.{pseudo_sum}
use rust_user_net.Udp.Delivery.{pseudo_sum_lem}
use rust_user_net.Tcp.Types.{TcpHeader, header_bytes}
use rust_user_net.Tcp.Segment.{segment}
use rust_user_net.Tcp.World.{World, Arrival}
use rust_user_net.Tcp.Arrives.{bytes_to_header, seg_len, arrival_of, segment_arrives, input}

le_to_be_u32-lt : (v : ℕ) → v < 2 ^ 32 → le_to_be_u32 v < 2 ^ 32
unfolding le_to_be_u32
le_to_be_u32-lt v h = omega (arith, byte_swap_u32_lem v h)

be_to_le_u16-zero : be_to_le_u16 0 ≡ 0
unfolding be_to_le_u16
be_to_le_u16-zero = omega (arith, byte_swap_u16_lem 0 (omega arith))

-- Neither address of a segment may be one of these.
abbrev pub is_unicast : IpInterface → ℕ → ℕ → Bool
is_unicast iface src dst =
    not
      (src == ip_addr_any || src == iface.broadcast || dst == ip_addr_any || dst == iface.broadcast)

-- The fields of a segment to send.
pub record Fields : Type 0 where
  pub seq_num : ℕ
  pub ack_num : ℕ
  pub flags : ℕ
  pub window : ℕ
  pub tcp_data : List ℕ
  pub local : IpEndpoint
  pub remote : IpEndpoint

-- The fields are of their widths, and the data fits one packet.
pub record IsFields (f : Fields) : Type 0 where
  pub seq_small : f.seq_num < 2 ^ 32
  pub ack_small : f.ack_num < 2 ^ 32
  pub flags_small : f.flags < 2 ^ 8
  pub window_small : f.window < 2 ^ 16
  pub local_small : f.local.port < 2 ^ 16
  pub remote_small : f.remote.port < 2 ^ 16
  pub fits : length f.tcp_data ≤ 65515
  pub data_bytes : All IsByte f.tcp_data

-- The segment of these fields, as its receiver should see it.
abbrev pub arrival : Fields → ℕ → Arrival
arrival f random = record {
  seg = record {
    seq_num = f.seq_num;
    ack_num = f.ack_num;
    len = seg_len (length f.tcp_data) f.flags % 2 ^ 16;
    window = f.window;
    urg_ptr = 0;
  };
  flags = f.flags;
  payload = f.tcp_data;
  len = length f.tcp_data;
  local = f.remote;
  remote = f.local;
  random = random;
}

abbrev blank : Fields → TcpHeader
blank f = record {
  src_port = f.local.port;
  dst_port = f.remote.port;
  seq_num = le_to_be_u32 f.seq_num;
  ack_num = le_to_be_u32 f.ack_num;
  offset = 80;
  flags = f.flags;
  window = le_to_be_u16 f.window;
  sum = 0;
  urg_ptr = 0;
}

abbrev stamped : Fields → ℕ → TcpHeader
stamped f sum = record (blank f) {
  sum = of_bytes_u16 (bit_and sum 0xff00 / 2 ^ 8 % 2 ^ 8) (bit_and sum 0xff % 2 ^ 8);
}

abbrev blank_bytes : Fields → List ℕ
blank_bytes f = header_bytes (blank f) ++ f.tcp_data

blank-IsByte : (f : Fields) → IsFields f → All IsByte (blank_bytes f)
blank-IsByte f v =
    All-append IsByte (header_bytes (blank f)) f.tcp_data (omega (arith, v.flags_small))
      v.data_bytes

read-stamped :
    (f : Fields) (sum : ℕ)
    → IsFields f
    → bytes_to_header (stamp 16 sum (blank_bytes f)) ≡ done (stamped f sum)
unfolding bytes_to_header
read-stamped f sum v = ground (
  arith,
  v.local_small,
  v.remote_small,
  le_to_be_u32-lt f.seq_num v.seq_small,
  le_to_be_u32-lt f.ack_num v.ack_small,
  le_to_be_u16-lt f.window v.window_small,
)

arrival_of-stamped :
    (f : Fields) (sum random : ℕ)
    → IsFields f
    → arrival_of
        (stamp 16 sum (blank_bytes f))
        (20 + length f.tcp_data)
        f.local.address
        f.remote.address
        (stamped f sum)
        random
      ≡ done (arrival f random)
unfolding arrival_of
arrival_of-stamped f sum random v =
    let words = conversions_inverse f.window f.seq_num v.window_small v.seq_small in
    let acks = conversions_inverse 0 f.ack_num (omega arith) v.ack_small in
    let header_len : 80 / 2 ^ 4 * 2 ^ 2 ≡ 20 = omega arith in
    let long : leb 20 (20 + length f.tcp_data) ≡ true = ground arith in
    let rest : (20 + length f.tcp_data) - 20 ≡ length f.tcp_data = omega arith in
    rw (header_len, long, rest, words.0, words.2, acks.2, be_to_le_u16-zero) refl

-- What the bytes of a segment are to its receiver.
record IsSegment (f : Fields) (bytes : List ℕ) : Type 0 where
  header : TcpHeader
  init : ℕ
  long : 20 ≤ length bytes
  read : bytes_to_header bytes ≡ done header
  pseudo :
      pseudo_sum 6 f.local.address f.remote.address (le_to_be_u16 (length bytes % 2 ^ 16))
      ≡ done init
  verifies : cksum16 bytes (length bytes) init ≡ done 0
  carries :
      (random : ℕ)
      → arrival_of bytes (length bytes) f.local.address f.remote.address header random
        ≡ done (arrival f random)

abbrev pub segment_of : Fields → Run (List ℕ)
segment_of f = segment f.seq_num f.ack_num f.flags f.window f.tcp_data f.local f.remote

segment_of-IsSegment :
    (f : Fields) → IsFields f → (bytes : List ℕ) × (segment_of f ≡ done bytes) × IsSegment f bytes
unfolding segment
segment_of-IsSegment f v =
    let len = le_to_be_u16 ((length f.tcp_data + 20) % 2 ^ 16) in
    let ps = pseudo_sum_lem 6 f.local.address f.remote.address len (omega arith) in
    let bytes = blank_bytes f in
    let st =
      cksum16-stamp bytes (length f.tcp_data + 20) ps.0 16 (omega arith) (omega (arith, v.fits))
        ps.2 (blank-IsByte f v) (refl, refl, refl) (omega arith) in
    let offset : 20 / 2 ^ 2 * 2 ^ 4 % 2 ^ 8 ≡ 80 = omega arith in
    let measured : length f.tcp_data + 20 ≡ length (stamp 16 st.0 bytes) = omega arith in
    (
      stamp 16 st.0 bytes,
      rw (ps.1, offset, st.1) refl,
      record {
        header = stamped f st.0;
        init = ps.0;
        long = omega arith;
        read = read-stamped f st.0 v;
        pseudo =
            ap (λ n. pseudo_sum 6 f.local.address f.remote.address (le_to_be_u16 (n % 2 ^ 16)))
              (sym measured)
            ∙ ps.1;
        verifies = ap (λ n. cksum16 (stamp 16 st.0 bytes) n ps.0) (sym measured) ∙ st.3;
        carries = λ random.
            ap
              (λ n.
                arrival_of (stamp 16 st.0 bytes) n f.local.address f.remote.address (stamped f st.0)
                  random)
              (omega arith)
            ∙ arrival_of-stamped f st.0 random v;
      },
    )

by_check : {A : Type 0} (b : Bool) (m : Run A) → (check b >> m) ≡ (if b then m else panic)
by_check true m = refl
by_check false m = refl

input-IsSegment :
    (env : Env) (f : Fields) (bytes : List ℕ) (iface : IpInterface) (random : ℕ) (w : World)
    → IsSegment f bytes
    → input env bytes (length bytes) f.local.address f.remote.address iface random w ≡ (
        if is_unicast iface f.local.address f.remote.address
        then (segment_arrives env (arrival f random) w >>= λ w'. done (ok tt, w'))
        else panic)
unfolding input
input-IsSegment env f bytes iface random w s =
    let enough : leb 20 (length bytes) ≡ true = ground (arith, s.long) in
    rw (s.read, enough, s.pseudo, s.verifies, s.carries random)
      (by_check (is_unicast iface f.local.address f.remote.address) _)

-- A segment that one stack makes, of fields of their widths and data of bytes that fits one packet,
-- passes the length and checksum checks of another. When no address is the wildcard address or the
-- broadcast address of the interface, what arrives there is these fields and this data, the endpoints
-- exchanged: `input` is `segment_arrives` on it. Else `input` panics.
pub input-segment :
    (env : Env) (f : Fields) (iface : IpInterface) (random : ℕ) (w : World)
    → IsFields f
    → (bytes : List ℕ) × (segment_of f ≡ done bytes)
      × (input env bytes (length bytes) f.local.address f.remote.address iface random w ≡ (
          if is_unicast iface f.local.address f.remote.address
          then (segment_arrives env (arrival f random) w >>= λ w'. done (ok tt, w'))
          else panic))
input-segment env f iface random w v =
    let s = segment_of-IsSegment f v in (s.0, s.1, input-IsSegment env f s.0 iface random w s.2)
