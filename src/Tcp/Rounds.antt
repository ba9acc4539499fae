-- ===== src/Tcp/Rounds.antt =====
-- That a round of `send` of src/protocols/ip/tcp.rs returns, and how.
use rust_user_net.Base.{
  le→leb, lt→ltb, ℕ, ◌+◌, ◌-◌, ◌^◌, ◌<◌, ◌≤◌, ◌≡◌, refl, List, some, false, Bool-cases, inl, inr,
  done, leb, ltb, get_elem?, arith, length, drop, Ensures-returned,
}
use rust_user_net.Device.Types.{Env}
use rust_user_net.Context.{Host}
use rust_user_net.Tcp.Types.{TcpPcb, tcp_flag_exists}
use rust_user_net.Tcp.Pcbs.{add_data_queue}
use rust_user_net.Tcp.Segment.{output, output_segment, queued}
use rust_user_net.Tcp.World.{World, put_pcb}
use rust_user_net.Tcp.Sending.{SendState, SendRound, send_round, send_capacity, send_len}
use rust_user_net.Tcp.Progress.{Ends, send_round-Ends}

-- Queueing a segment keeps the numbers.
queued-send_context :
    (env : Env) (pcb : TcpPcb) (text : List ℕ)
    → (queued env pcb 0x18 text).send_context ≡ pcb.send_context
unfolding queued tcp_flag_exists add_data_queue
queued-send_context env pcb text = elim (Bool-cases (ltb 0 (length text))) [
  | inl e ↦ rw e refl
  | inr e ↦ rw e refl
]

output-queued :
    (env : Env) (pcb : TcpPcb) (text : List ℕ) (host host' : Host) (count : ℕ)
    → output_segment env pcb.send_context.next pcb.recv_context.next 0x18 pcb.recv_context.window
        text pcb.local pcb.remote host
      ≡ done (count, host')
    → output env pcb 0x18 text host ≡ done (count, queued env pcb 0x18 text, host')
unfolding output tcp_flag_exists
output-queued env pcb text host host' count o = rw o refl

module _ (env : Env) (pcb_id : ℕ) (payload : List ℕ) (s : SendState) (sent : ℕ) (w : World)
    (pcb : TcpPcb) (host : Host) (count : ℕ) (there : get_elem? w.pcbs pcb_id ≡ some pcb)
    (live : s.una ≤ s.next) (allowed : s.next - s.una ≤ s.window)
    (below : pcb.send_context.next + length payload < 2 ^ 32)
    (leaves : output_segment env pcb.send_context.next pcb.recv_context.next 0x18
        pcb.recv_context.window
        (drop sent payload)
        pcb.local
        pcb.remote
        w.host
      ≡ done (count, host)) where
  send_round-moves :
      leb (length payload) sent ≡ false
      → ltb (s.window - (s.next - s.una)) 1 ≡ false
      → (r : SendRound) × (w' : World) × (send_round env pcb_id payload s sent w ≡ done (r, w'))
  unfolding send_round send_capacity
  send_round-moves more free =
      let capacity = s.window - (s.next - s.una) in
      let least : send_len s payload sent capacity ≤ length payload = omega arith in
      let pcb' = queued env pcb 0x18 (drop sent payload) in
      (
        SendRound.continues (sent + send_len s payload sent capacity),
        put_pcb (record w { host = host }) pcb_id
            (record pcb' {
              send_context = record (pcb'.send_context) {
                next = pcb.send_context.next + send_len s payload sent capacity;
              };
            }),
        rw
            (
              more,
              le→leb s.una s.next live,
              le→leb (s.next - s.una) s.window allowed,
              free,
              there,
              output-queued env pcb (drop sent payload) w.host host count leaves,
              queued-send_context env pcb (drop sent payload),
              lt→ltb (pcb.send_context.next + send_len s payload sent capacity) (2 ^ 32)
                  (omega (arith, least, below)),
            )
            refl,
      )

  send_round-returns :
      (r : SendRound) × (w' : World) × (send_round env pcb_id payload s sent w ≡ done (r, w'))
  unfolding send_round send_capacity
  send_round-returns = elim (Bool-cases (leb (length payload) sent)) [
    | inl over ↦ (SendRound.returns sent, w, rw over refl)
    | inr more ↦ elim (Bool-cases (ltb (s.window - (s.next - s.una)) 1)) [
      | inr free ↦ send_round-moves more free
      | inl full ↦ (
        SendRound.waits,
        w,
        rw (more, le→leb s.una s.next live, le→leb (s.next - s.una) s.window allowed, full) refl,
      )
    ]
  ]

-- A round of `send` of at least one byte for each segment, at a block that is there: when no more is
-- on its way than the window takes, the numbers do not overflow and the segment leaves the host, the
-- round returns. It is over when everything is sent, waits when the window that was read is used up,
-- and else counts more as sent: at least one byte, no more than there is, and no more than that
-- window allows.
pub send_round_lem :
    (env : Env) (pcb_id : ℕ) (payload : List ℕ) (s : SendState) (sent : ℕ) (w : World)
    (pcb : TcpPcb) (host : Host) (count : ℕ)
    → 0 < s.mss
    → get_elem? w.pcbs pcb_id ≡ some pcb
    → s.una ≤ s.next
    → s.next - s.una ≤ s.window
    → pcb.send_context.next + length payload < 2 ^ 32
    → output_segment env pcb.send_context.next pcb.recv_context.next 0x18 pcb.recv_context.window
        (drop sent payload)
        pcb.local
        pcb.remote
        w.host
      ≡ done (count, host)
    → (r : SendRound) × (w' : World) × (send_round env pcb_id payload s sent w ≡ done (r, w'))
      × Ends s (length payload) sent r
send_round_lem env pcb_id payload s sent w pcb host count some_bytes there live allowed below
      leaves =
    let (r, w', e) =
      send_round-returns env pcb_id payload s sent w pcb host count there live allowed below
        leaves in
    (
      r,
      w',
      e,
      Ensures-returned {P = λ q. Ends s (length payload) sent q.0} (r, w')
          (record { holds = send_round-Ends env pcb_id payload s sent w some_bytes }) e,
    )
