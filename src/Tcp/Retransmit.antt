-- ===== src/Tcp/Retransmit.antt =====
-- `retransmit` of src/protocols/ip/tcp.rs, which a thread of src/app.rs calls every 100 ms.
use rust_user_net.Base.{
  ℕ, ◌+◌, ◌-◌, ◌/◌, List, [], ◌∷◌, Run, done, ◌>>=◌, ◌>>◌, check, unwrap, ltb, leb, if◌then◌else◌,
}
use rust_user_net.Channel.{Channels}
use rust_user_net.Device.Types.{Env}
use rust_user_net.Context.{Host}
use rust_user_net.Tcp.Types.{
  TcpPcb, TcpPcbState, TcpDataQueueEntry, tcp_retransmit_timout_sec, state_eq,
}
use rust_user_net.Tcp.Pcbs.{release}
use rust_user_net.Tcp.Segment.{output_segment}
use rust_user_net.Tcp.World.{World}

-- `t.elapsed().unwrap()`, which fails for a time that is still to come.
abbrev pub elapsed : ℕ → ℕ → Run ℕ
elapsed now t = check (leb t now) >> done (now - t)

-- `while let Some(queue) = pcb.data_queue.entries.pop_front()`: the list is what is left to pop.
unfoldable pub drain :
    Env → TcpPcb → List TcpDataQueueEntry → Host → Channels → Run (TcpPcb × Host × Channels)
unfolding release
drain env pcb [] host channels = done (record pcb { data_queue = [] }, host, channels)
drain env pcb (queue ∷ rest) host channels =
    let continue_ = λ (h : Host). drain env pcb rest h channels in
    do
      age ← elapsed env.now queue.first_sent_at
      if leb tcp_retransmit_timout_sec (age / 1000000)
          then (do let (pcb', channels') = release pcb channels; done (pcb', host, channels'))
          else if ltb env.now (queue.last_sent_at + queue.retry_interval)
          then (do
            (_, host') ←
                output_segment env queue.seq_num pcb.recv_context.next queue.flags
                  pcb.recv_context.window queue.payload pcb.local pcb.remote host
            continue_ host')
          else continue_ host

-- One block: a free one is skipped, one whose waiting time is over is released.
unfoldable pub retransmit_pcb : Env → TcpPcb → Host → Channels → Run (TcpPcb × Host × Channels)
unfolding drain
retransmit_pcb env pcb host channels =
    if state_eq pcb.state TcpPcbState.free
    then done (pcb, host, channels)
    else if state_eq pcb.state TcpPcbState.time_wait
    then (do
      wait_time ← unwrap pcb.wait_time
      over ← elapsed env.now wait_time
      if ltb 0 over
          then (do let (pcb', channels') = release pcb channels; done (pcb', host, channels'))
          else drain env pcb pcb.data_queue host channels)
    else drain env pcb pcb.data_queue host channels

unfoldable pub retransmit_from :
    Env → List TcpPcb → Host → Channels → Run (List TcpPcb × Host × Channels)
unfolding retransmit_pcb
retransmit_from env [] host channels = done ([], host, channels)
retransmit_from env (pcb ∷ pcbs) host channels = do
  (pcb', host', channels') ← retransmit_pcb env pcb host channels
  (pcbs', host'', channels'') ← retransmit_from env pcbs host' channels'
  done (pcb' ∷ pcbs', host'', channels'')

unfoldable pub retransmit : Env → World → Run World
unfolding retransmit_from
retransmit env w = do
  (pcbs, host, channels) ← retransmit_from env w.pcbs w.host w.channels
  done (record { host = host; pcbs = pcbs; channels = channels })
