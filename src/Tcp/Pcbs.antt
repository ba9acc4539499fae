-- ===== src/Tcp/Pcbs.antt =====
-- `TcpPcb` and `TcpPcbs` of src/protocols/ip/tcp.rs: queues, release, allocation and selection.
use rust_user_net.Base.{
  ℕ, zero, suc, ◌+◌, ◌*◌, List, [], ◌∷◌, ◌++◌, Option, none, some, Bool, true, false, ◌&&◌, ◌||◌,
  Run, unwrap, leb, ◌==◌, if◌then◌else◌, get_elem?, replicate,
}
use rust_user_net.Channel.{Channels, send}
use rust_user_net.Ip.Route.{IpEndpoint, ip_addr_any}
use rust_user_net.Tcp.Types.{
  TcpPcb, TcpPcbState, TcpDataQueueEntry, tcp_default_itvl_micros, tcp_timewait_sec, state_eq,
  new_pcb, tcp_pcb_count,
}

-- `add_data_queue` at the time `now`.
unfoldable pub add_data_queue : ℕ → TcpPcb → ℕ → ℕ → List ℕ → TcpPcb
add_data_queue now pcb seq_num flags payload = record pcb {
  data_queue =
      pcb.data_queue
      ++ record {
        first_sent_at = now;
        last_sent_at = now;
        retry_interval = tcp_default_itvl_micros;
        seq_num = seq_num;
        flags = flags;
        payload = payload;
      }
        ∷ [];
}

-- The loop of `clean_data_queue`: the place of the last entry before the first one at or above
-- `una`; `i` counts, `found` is what was seen.
unfoldable pub last_acked : ℕ → ℕ → Option ℕ → List TcpDataQueueEntry → Option ℕ
last_acked una i found [] = found
last_acked una i found (entry ∷ entries) =
    if leb una entry.seq_num then found else last_acked una (i + 1) (some i) entries

-- `VecDeque::remove`.
unfoldable pub remove_at : ℕ → List TcpDataQueueEntry → List TcpDataQueueEntry
remove_at i [] = []
remove_at zero (entry ∷ entries) = entries
remove_at (suc i) (entry ∷ entries) = entry ∷ remove_at i entries

unfoldable pub clean_queue : ℕ → List TcpDataQueueEntry → List TcpDataQueueEntry
unfolding last_acked remove_at
clean_queue una entries = elim (last_acked una 0 none entries) [
  | none ↦ entries
  | some i ↦ remove_at i entries
]

unfoldable pub clean_data_queue : TcpPcb → TcpPcb
clean_data_queue pcb = record pcb { data_queue = clean_queue pcb.send_context.una pcb.data_queue }

-- `sender.send(message)` where its failure is logged only.
unfoldable pub wake : Option ℕ → Bool → Channels → Channels
wake none message channels = channels
wake (some sender) message channels = (send channels sender message).1

-- `release`: the block, and the channels after its waiter was told.
abbrev pub released : TcpPcb → TcpPcb
released pcb = record pcb { state = TcpPcbState.free; data_queue = []; backlog = [] }

unfoldable pub release : TcpPcb → Channels → TcpPcb × Channels
release pcb channels = (released pcb, wake pcb.sender false channels)

-- `add_backlog`.
unfoldable pub add_backlog : TcpPcb → ℕ → TcpPcb
add_backlog pcb pcb_id = record pcb { backlog = pcb.backlog ++ pcb_id ∷ [] }

-- `set_wait_time`: with a time that is set, the sum is computed and dropped.
unfoldable pub set_wait_time : ℕ → TcpPcb → TcpPcb
set_wait_time now pcb = elim pcb.wait_time [
  | none ↦ record pcb { wait_time = some (now + tcp_timewait_sec * 1000000) }
  | some _ ↦ pcb
]

-- `TcpPcbs::new`.
abbrev pub new_pcbs : List TcpPcb
new_pcbs = replicate tcp_pcb_count new_pcb

-- `new_entry`: the first free block is closed; `i` is its place.
unfoldable pub new_entry_from : ℕ → List TcpPcb → Option (ℕ × List TcpPcb)
new_entry_from i [] = none
new_entry_from i (pcb ∷ pcbs) =
    let rest = new_entry_from (i + 1) pcbs in
    if state_eq pcb.state TcpPcbState.free
    then some (i, record pcb { state = TcpPcbState.closed } ∷ pcbs)
    else elim rest [ none ↦ none | some (j, pcbs') ↦ some (j, pcb ∷ pcbs') ]

unfoldable pub new_entry : List TcpPcb → Option (ℕ × List TcpPcb)
unfolding new_entry_from
new_entry pcbs = new_entry_from 0 pcbs

-- The address and port tests of `select`.
abbrev pub local_fits : TcpPcb → IpEndpoint → Bool
local_fits pcb local =
    (pcb.local.address == ip_addr_any || pcb.local.address == local.address)
    && pcb.local.port == local.port

abbrev pub listens : TcpPcb → Bool
listens pcb =
    state_eq pcb.state TcpPcbState.listen
    && (pcb.remote.address == ip_addr_any && pcb.remote.port == 0)

-- Whether a block that fits locally is returned at once.
abbrev pub remote_fits : TcpPcb → Option IpEndpoint → Bool
remote_fits pcb none = true
remote_fits pcb (some remote) = pcb.remote.address == remote.address

-- The loop of `select`, from place `i`, with the listening block that was seen.
unfoldable pub select_from : ℕ → Option ℕ → List TcpPcb → IpEndpoint → Option IpEndpoint → Option ℕ
select_from i listening [] local remote = listening
select_from i listening (pcb ∷ pcbs) local remote =
    let rest =
      select_from (i + 1) (if local_fits pcb local && listens pcb then some i else listening) pcbs
        local remote in
    if local_fits pcb local && remote_fits pcb remote then some i else rest

unfoldable pub select : List TcpPcb → IpEndpoint → Option IpEndpoint → Option ℕ
unfolding select_from
select pcbs local remote = select_from 0 none pcbs local remote

-- `TcpPcbs::close_sockets`.
unfoldable pub close_sockets : List TcpPcb → Channels → List TcpPcb × Channels
unfolding release
close_sockets [] channels = ([], channels)
close_sockets (pcb ∷ pcbs) channels =
    let (pcb', channels') = release pcb channels in
    let (pcbs', channels'') = close_sockets pcbs channels' in (pcb' ∷ pcbs', channels'')

-- `pcb_by_id`.
abbrev pub pcb_by_id : List TcpPcb → ℕ → Run TcpPcb
pcb_by_id pcbs pcb_id = unwrap (get_elem? pcbs pcb_id)
