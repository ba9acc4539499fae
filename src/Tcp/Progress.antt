-- ===== src/Tcp/Progress.antt =====
-- What a round of `send` of src/protocols/ip/tcp.rs achieves.
use rust_user_net.Base.{
  ℕ, ◌+◌, ◌-◌, ◌≤◌, ◌<◌, ◌≡◌, refl, List, leb, ltb, length, drop, arith, true, false, Returns,
  Returns-bind, Returns-then, Returns-if, bit_or,
}
use rust_user_net.Device.Types.{Env}
use rust_user_net.Tcp.Types.{TcpFlag, flag_as_u8, add_u32}
use rust_user_net.Tcp.Pcbs.{pcb_by_id}
use rust_user_net.Tcp.Segment.{output}
use rust_user_net.Tcp.World.{World}
use rust_user_net.Tcp.Sending.{SendState, SendRound, send_len, send_capacity, send_round}

-- How a round that started with `sent` bytes sent of `total` may end.
abbrev pub Ends : SendState → ℕ → ℕ → SendRound → Type 0
Ends s total sent (SendRound.returns n) = (n ≡ sent) × (total ≤ sent)
Ends s total sent SendRound.waits = (sent < total) × (s.next ≡ s.una + s.window)
Ends s total sent (SendRound.continues n) =
    (sent < n) × (n ≤ total) × (s.next + (n - sent) ≤ s.una + s.window)

send_capacity_lem :
    (s : SendState) → Returns (λ capacity. s.next + capacity ≡ s.una + s.window) (send_capacity s)
unfolding send_capacity
send_capacity_lem s = ground arith

-- A round of `send` that returns, with segments of at least one byte: it is over when everything is
-- sent, waits when the window that was read is used up, and else counts more as sent, at least one
-- byte, no more than there is and no more than that window allows.
pub send_round-Ends :
    (env : Env) (pcb_id : ℕ) (payload : List ℕ) (s : SendState) (sent : ℕ) (w : World)
    → 0 < s.mss
    → Returns (λ r. Ends s (length payload) sent r.0) (send_round env pcb_id payload s sent w)
unfolding send_round
send_round-Ends env pcb_id payload s sent w some_bytes =
    Returns-if IsEnd (leb (length payload) sent) _ _ (λ over. (refl, from_leb over))
      (λ more.
        Returns-then (λ capacity. s.next + capacity ≡ s.una + s.window) IsEnd (send_capacity s) _
          (send_capacity_lem s)
          (λ capacity room.
            Returns-if IsEnd (ltb capacity 1) _ _ (λ full. filled capacity room full more)
              (λ free. Returns-bind IsEnd (pcb_by_id w.pcbs pcb_id) _ (λ pcb.
                Returns-bind IsEnd
                  (output env pcb (bit_or (flag_as_u8 TcpFlag.ack) (flag_as_u8 TcpFlag.psh))
                    (drop sent payload) w.host)
                  _
                  (λ r.
                    Returns-bind IsEnd
                      (add_u32 r.1.send_context.next (send_len s payload sent capacity)) _
                      (λ next. moved capacity room free more))))))
  where
    IsEnd : SendRound × World → Type 0
    IsEnd r = Ends s (length payload) sent r.0

    from_leb : leb (length payload) sent ≡ true → length payload ≤ sent
    from_leb over = ground arith

    filled :
        (capacity : ℕ)
        → s.next + capacity ≡ s.una + s.window
        → ltb capacity 1 ≡ true
        → leb (length payload) sent ≡ false
        → (sent < length payload) × (s.next ≡ s.una + s.window)
    filled capacity room full more = ground arith

    moved :
        (capacity : ℕ)
        → s.next + capacity ≡ s.una + s.window
        → ltb capacity 1 ≡ false
        → leb (length payload) sent ≡ false
        → Ends s
            (length payload)
            sent
            (SendRound.continues (sent + send_len s payload sent capacity))
    moved capacity room free more =
        let some_room : 1 ≤ capacity = ground arith in
        let left : sent < length payload = ground arith in omega arith
