-- ===== src/Tcp/World.antt =====
-- What the handlers of src/protocols/ip/tcp.rs change, the segment that they are given, and the
-- replies that they send.
use rust_user_net.Base.{ℕ, List, [], Option, true, Run, done, ◌>>=◌, set}
use rust_user_net.Channel.{Channels}
use rust_user_net.Device.Types.{Env}
use rust_user_net.Ip.Route.{IpEndpoint}
use rust_user_net.Context.{Host}
use rust_user_net.Tcp.Types.{TcpPcb, TcpSegmentInfo, TcpFlag, flag_as_u8}
use rust_user_net.Tcp.Pcbs.{release, wake, pcb_by_id}
use rust_user_net.Tcp.Segment.{output_segment, output}

pub record World : Type 0 where
  pub host : Host
  pub pcbs : List TcpPcb
  pub channels : Channels

-- The arguments of `segment_arrives`: `payload` is its `data`, `random` what `gen_range` would give.
pub record Arrival : Type 0 where
  pub seg : TcpSegmentInfo
  pub flags : ℕ
  pub payload : List ℕ
  pub len : ℕ
  pub local : IpEndpoint
  pub remote : IpEndpoint
  pub random : ℕ

-- A block is written back.
abbrev pub put_pcb : World → ℕ → TcpPcb → World
put_pcb w pcb_id pcb = record w { pcbs = set w.pcbs pcb_id pcb }

abbrev pub wake_world : World → Option ℕ → World
wake_world w sender = record w { channels = wake sender true w.channels }

-- `output_segment` with no data to the sender of the segment, from no block.
unfoldable pub reply : Env → Arrival → ℕ → ℕ → ℕ → World → Run World
reply env a seq_num ack_num flags w = do
  (_, host) ← output_segment env seq_num ack_num flags 0 [] a.local a.remote w.host
  done (record w { host = host })

-- The reset that answers an unexpected acknowledgement.
abbrev pub reply_rst : Env → Arrival → World → Run World
reply_rst env a w = reply env a a.seg.ack_num 0 (flag_as_u8 TcpFlag.rst) w

-- `output` with no data from a block, which is written back.
unfoldable pub send_from : Env → ℕ → TcpPcb → ℕ → World → Run World
send_from env pcb_id pcb flags w = do
  (_, pcb', host) ← output env pcb flags [] w.host
  done (record w { host = host; pcbs = set w.pcbs pcb_id pcb' })

-- `pcb.release()` of the block at `pcb_id`.
unfoldable pub release_at : ℕ → World → Run World
release_at pcb_id w = do
  pcb ← pcb_by_id w.pcbs pcb_id
  let (pcb', channels) = release pcb w.channels
  done (record w { pcbs = set w.pcbs pcb_id pcb'; channels = channels })

-- After a check of a segment: the handler returns, or goes on.
pub data Flow : Type 0 where
  stop : World → Flow
  go : World → Flow

abbrev pub world_of : Flow → World
world_of (stop w) = w
world_of (go w) = w

abbrev pub and_then : Flow → (World → Run Flow) → Run Flow
and_then (stop w) next = done (stop w)
and_then (go w) next = next w

abbrev pub stopped : Run World → Run Flow
stopped m = m >>= λ w. done (stop w)
