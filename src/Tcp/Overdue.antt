-- ===== src/Tcp/Overdue.antt =====
-- A pass of `retransmit` of src/protocols/ip/tcp.rs over entries whose waiting time is over.
use rust_user_net.Base.{
  le→leb, gt→leb, ge→ltb, ℕ, ◌+◌, ◌-◌, ◌*◌, ◌/◌, ◌<◌, ◌≤◌, ◌≡◌, refl, List, [], ◌∷◌, All, false,
  Bool-cases, inl, inr, done, if◌then◌else◌, map, arith,
}
use rust_user_net.Channel.{Channels}
use rust_user_net.Device.Types.{Env}
use rust_user_net.Context.{Host}
use rust_user_net.Tcp.Types.{
  TcpPcb, TcpPcbState, TcpDataQueueEntry, state_eq, tcp_retransmit_timout_sec,
}
use rust_user_net.Tcp.World.{World}
use rust_user_net.Tcp.Retransmit.{drain, retransmit_pcb, retransmit_from, retransmit}

-- An entry that was sent less than 12 seconds ago for the first time, and is to be sent again.
pub record IsOverdue (now : ℕ) (entry : TcpDataQueueEntry) : Type 0 where
  pub past : entry.first_sent_at ≤ now
  pub young : now < entry.first_sent_at + tcp_retransmit_timout_sec * 1000000
  pub due : entry.last_sent_at + entry.retry_interval ≤ now

pub record AllOverdue (now : ℕ) (pcb : TcpPcb) : Type 0 where
  pub awake : state_eq pcb.state TcpPcbState.time_wait ≡ false
  pub overdue : All (IsOverdue now) pcb.data_queue

-- The block without its queue, if it is in use.
abbrev pub dropped : TcpPcb → TcpPcb
dropped pcb = if state_eq pcb.state TcpPcbState.free then pcb else record pcb { data_queue = [] }

drain-IsOverdue :
    (env : Env) (pcb : TcpPcb) (queue : List TcpDataQueueEntry) (host : Host) (channels : Channels)
    → All (IsOverdue env.now) queue
    → drain env pcb queue host channels ≡ done (record pcb { data_queue = [] }, host, channels)
unfolding drain
drain-IsOverdue env pcb [] host channels h = refl
drain-IsOverdue env pcb (entry ∷ rest) host channels h =
    let (o, os) = h in
    let young = o.young in
    let past = o.past in
    let age : (env.now - entry.first_sent_at) / 1000000 < 12 = omega arith in
    rw
      (
        le→leb entry.first_sent_at env.now past,
        gt→leb tcp_retransmit_timout_sec ((env.now - entry.first_sent_at) / 1000000) age,
        ge→ltb env.now (entry.last_sent_at + entry.retry_interval) o.due,
      )
      (drain-IsOverdue env pcb rest host channels os)

retransmit_pcb-AllOverdue :
    (env : Env) (pcb : TcpPcb) (host : Host) (channels : Channels)
    → AllOverdue env.now pcb
    → retransmit_pcb env pcb host channels ≡ done (dropped pcb, host, channels)
unfolding retransmit_pcb
retransmit_pcb-AllOverdue env pcb host channels h =
    elim (Bool-cases (state_eq pcb.state TcpPcbState.free)) [
      | inl e ↦ rw e refl
      | inr e ↦ rw (e, h.awake) (drain-IsOverdue env pcb pcb.data_queue host channels h.overdue)
    ]

retransmit_from-AllOverdue :
    (env : Env) (pcbs : List TcpPcb) (host : Host) (channels : Channels)
    → All (AllOverdue env.now) pcbs
    → retransmit_from env pcbs host channels ≡ done (map dropped pcbs, host, channels)
unfolding retransmit_from
retransmit_from-AllOverdue env [] host channels h = refl
retransmit_from-AllOverdue env (pcb ∷ pcbs) host channels h =
    rw
      (
        retransmit_pcb-AllOverdue env pcb host channels h.0,
        retransmit_from-AllOverdue env pcbs host channels h.1,
      )
      refl

-- A pass of `retransmit` over blocks of which none is in TIME-WAIT, with entries that were all sent
-- less than 12 seconds ago for the first time and whose interval for another try is over, returns.
-- It sends none of them and wakes nobody, and takes them all out of the queues of the blocks in use.
pub retransmit-AllOverdue :
    (env : Env) (w : World)
    → All (AllOverdue env.now) w.pcbs
    → retransmit env w ≡ done (record w { pcbs = map dropped w.pcbs })
unfolding retransmit
retransmit-AllOverdue env w h = rw (retransmit_from-AllOverdue env w.pcbs w.host w.channels h) refl
