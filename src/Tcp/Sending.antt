-- ===== src/Tcp/Sending.antt =====
-- `send` of src/protocols/ip/tcp.rs, between its locks and its waits: `attach` of Commands, then
-- `send_test`, and `send_round` until it returns or waits. A message wakes it to `send_test` again,
-- and `false` ends it with nothing.
use rust_user_net.Base.{
  ℕ, zero, suc, ◌+◌, ◌-◌, List, Option, none, some, Run, done, ◌>>=◌, ◌>>◌, check, leb, ltb,
  if◌then◌else◌, length, drop, min, bit_or, Bool, true, false,
}
use rust_user_net.Device.Types.{Env}
use rust_user_net.Tcp.Types.{TcpPcbState, TcpFlag, flag_as_u8, add_u32}
use rust_user_net.Tcp.Pcbs.{pcb_by_id}
use rust_user_net.Tcp.Segment.{output}
use rust_user_net.Tcp.World.{World, put_pcb}

-- What the command read of the block and of the device under its first lock.
pub record SendState : Type 0 where
  pub window : ℕ
  pub next : ℕ
  pub una : ℕ
  pub mss : ℕ

abbrev pub sends_data : TcpPcbState → Bool
sends_data TcpPcbState.established = true
sends_data TcpPcbState.close_wait = true
sends_data _ = false

-- The first lock of a round of the outer loop; in any other state the command returns `None`.
unfoldable pub send_test : ℕ → World → Run (Option SendState)
send_test pcb_id w = do
  pcb ← pcb_by_id w.pcbs pcb_id
  if sends_data pcb.state
      then (do
        check (leb 40 w.host.device.mtu)
        done (
            some (record {
              window = pcb.send_context.window;
              next = pcb.send_context.next;
              una = pcb.send_context.una;
              mss = w.host.device.mtu - 40;
            })))
      else done none

-- `pcb_send_window - (pcb_send_next - pcb_send_una)`, both of which are checked.
unfoldable pub send_capacity : SendState → Run ℕ
send_capacity s = do
  check (leb s.una s.next)
  check (leb (s.next - s.una) s.window)
  done (s.window - (s.next - s.una))

-- How a round of the inner loop ends: the command returns what it has sent, waits for a message, or
-- goes on with more sent.
pub data SendRound : Type 0 where
  returns : ℕ → SendRound
  waits : SendRound
  continues : ℕ → SendRound

abbrev pub send_len : SendState → List ℕ → ℕ → ℕ → ℕ
send_len s payload sent capacity = min (min s.mss (length payload - sent)) capacity

-- A round of the inner loop, with `sent` bytes of the data counted as sent.
unfoldable pub send_round : Env → ℕ → List ℕ → SendState → ℕ → World → Run (SendRound × World)
send_round env pcb_id payload s sent w =
    if leb (length payload) sent then done (returns sent, w) else do
      capacity ← send_capacity s
      if ltb capacity 1 then done (waits, w) else (do
        pcb ← pcb_by_id w.pcbs pcb_id
        (_, pcb', host) ←
            output env pcb (bit_or (flag_as_u8 TcpFlag.ack) (flag_as_u8 TcpFlag.psh))
              (drop sent payload) w.host
        next ← add_u32 pcb'.send_context.next (send_len s payload sent capacity)
        done (
          continues (sent + send_len s payload sent capacity),
          put_pcb (record w { host = host }) pcb_id
              (record pcb' { send_context = record (pcb'.send_context) { next = next } }),
        ))

-- How a pass ends: the command returns what it has sent, or waits with that much sent; `none` is a
-- pass that ran out of rounds.
pub data PassEnd : Type 0 where
  returned waiting : ℕ → PassEnd

-- The inner loop, of at most `fuel` rounds.
unfoldable pub send_pass :
    ℕ → Env → ℕ → List ℕ → SendState → ℕ → World → Run (Option PassEnd × World)
send_pass zero env pcb_id payload s sent w = done (none, w)
send_pass (suc fuel) env pcb_id payload s sent w = do
  (round, w') ← send_round env pcb_id payload s sent w
  elim round [
    | SendRound.returns n ↦ done (some (PassEnd.returned n), w')
    | SendRound.waits ↦ done (some (PassEnd.waiting sent), w')
    | SendRound.continues n ↦ send_pass fuel env pcb_id payload s n w'
  ]
