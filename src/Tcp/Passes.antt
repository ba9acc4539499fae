-- ===== src/Tcp/Passes.antt =====
-- The inner loop of `send` of src/protocols/ip/tcp.rs ends.
use rust_user_net.Base.{
  ℕ, zero, suc, ◌+◌, ◌≤◌, ◌<◌, ◌≡◌, List, Option, none, some, Run, done, ◌>>=◌, length, arith,
  Ensures, Ensures-done, Ensures-then, Ensures-weaken,
}
use rust_user_net.Device.Types.{Env}
use rust_user_net.Tcp.World.{World}
use rust_user_net.Tcp.Sending.{SendState, SendRound, send_round, PassEnd, send_pass}
use rust_user_net.Tcp.Progress.{Ends, send_round-Ends}

-- How a pass over data of `total` bytes may end, with more than `start` bytes sent if it did a round
-- that sent any: with everything sent, or waiting in front of a window that is used up.
abbrev pub Completes : SendState → ℕ → ℕ → Option PassEnd → Type 0
Completes s total start none = ⊥
Completes s total start (some (PassEnd.returned n)) = (start ≤ n) × (total ≤ n)
Completes s total start (some (PassEnd.waiting n)) =
    (start ≤ n) × (n < total) × (s.next ≡ s.una + s.window)

round_rule :
    {A : Type 0} {P : A → Type 0} {f : SendRound × World → Run A} (env : Env) (pcb_id : ℕ)
    (payload : List ℕ) (s : SendState) (sent : ℕ) (w : World)
    → 0 < s.mss
    → ((r : SendRound × World) → Ends s (length payload) sent r.0 → Ensures P (f r))
    → Ensures P (send_round env pcb_id payload s sent w >>= f)
round_rule env pcb_id payload s sent w h hf =
    Ensures-then (send_round env pcb_id payload s sent w)
      (record { holds = send_round-Ends env pcb_id payload s sent w h }) hf

go_on-Completes :
    (fuel : ℕ) (env : Env) (pcb_id : ℕ) (payload : List ℕ) (s : SendState) (sent : ℕ)
    → ((n : ℕ) (w' : World)
        → sent < n
        → n ≤ length payload
        → Ensures
            (λ r. Completes s (length payload) n r.0)
            (send_pass fuel env pcb_id payload s n w'))
    → (r : SendRound × World) → Ends s (length payload) sent r.0
    → Ensures {A = Option PassEnd × World}
        (λ q. Completes s (length payload) sent q.0)
        (elim r.0 [
          | SendRound.returns n ↦ done (some (PassEnd.returned n), r.1)
          | SendRound.waits ↦ done (some (PassEnd.waiting sent), r.1)
          | SendRound.continues n ↦ send_pass fuel env pcb_id payload s n r.1
        ])
go_on-Completes fuel env pcb_id payload s sent rest (SendRound.returns n, w') h =
    Ensures-done (omega (arith, h.0), omega (arith, h.0, h.1))
go_on-Completes fuel env pcb_id payload s sent rest (SendRound.waits, w') h =
    Ensures-done (omega arith, h.0, h.1)
go_on-Completes fuel env pcb_id payload s sent rest (SendRound.continues n, w') h =
    Ensures-weaken (rest n w' h.0 h.1) (λ r. later r.0)
  where
    later :
        (e : Option PassEnd)
        → Completes s (length payload) n e
        → Completes s (length payload) sent e
    later none c = c
    later (some (PassEnd.returned m)) c = (omega (arith, h.0, c.0), c.1)
    later (some (PassEnd.waiting m)) c = (omega (arith, h.0, c.0), c.1, c.2)

-- From `sent` bytes sent of the data, with segments of at least one byte, one round more than there
-- are bytes left is enough: a pass that returns ends with everything sent, or waits with the rest
-- left while the window that was read is used up, and in both cases nothing is taken back.
pub send_pass-Completes :
    (left : ℕ) (env : Env) (pcb_id : ℕ) (payload : List ℕ) (s : SendState) (sent : ℕ) (w : World)
    → 0 < s.mss
    → length payload ≤ sent + left
    → Ensures
        (λ r. Completes s (length payload) sent r.0)
        (send_pass (suc left) env pcb_id payload s sent w)
unfolding send_pass
send_pass-Completes zero env pcb_id payload s sent w hm hf =
    round_rule env pcb_id payload s sent w hm (
      go_on-Completes zero env pcb_id payload s sent
        (λ n w' h₁ h₂. absurd (omega (arith, h₁, h₂, hf))))
send_pass-Completes (suc left) env pcb_id payload s sent w hm hf =
    round_rule env pcb_id payload s sent w hm (
      go_on-Completes (suc left) env pcb_id payload s sent (λ n w' h₁ h₂.
        send_pass-Completes left env pcb_id payload s n w' hm (omega (arith, h₁, hf))))
