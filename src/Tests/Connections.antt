-- ===== src/Tests/Connections.antt =====
-- Examples for src/protocols/ip/tcp.rs.
use rust_user_net.Base.{
  if◌then◌else◌, panic, replicate, ℕ, ◌≤◌, ◌≡◌, refl, List, [], ◌∷◌, ◌++◌, none, done, ok, length,
  arith, ◌>>=◌,
}
use rust_user_net.Tcp.Widths.{HasWidths, bytes_to_header-HasWidths}
use rust_user_net.Tcp.Types.{
  TcpHeader, header_bytes, TcpPcb, TcpPcbState, TcpDataQueueEntry, new_pcb,
}
use rust_user_net.Tcp.Pcbs.{new_entry, clean_queue}
use rust_user_net.Tcp.Allocate.{Taken, new_entry-Taken}
use rust_user_net.Tcp.World.{World, put_pcb}
use rust_user_net.Tcp.Retransmit.{retransmit}
use rust_user_net.Tcp.Commands.{receive_take}
use rust_user_net.Tcp.Queue.{clean_queue_lem}
use rust_user_net.Tcp.Overdue.{retransmit-AllOverdue}
use rust_user_net.Tcp.Window.{IsWindow, receive_take-IsWindow}
use rust_user_net.Tcp.Arrives
use rust_user_net.Tcp.Delivery
use rust_user_net.Tcp.Delivery.{arrival, segment_of, is_unicast, input-segment}
use rust_user_net.Tests.{
  env, addr_one, addr_two, iface_of, host_of, text, endpoint_one, endpoint_two,
}

abbrev block : TcpPcb
block = record new_pcb {
  state = TcpPcbState.established;
  local = endpoint_two;
  remote = endpoint_one;
  send_context = record { next = 900; una = 800; window = 1000; urg_ptr = 0; wl1 = 0; wl2 = 0 };
  recv_context = record { next = 100; window = 65533; urg_ptr = 0 };
  buf = 1 ∷ 2 ∷ [];
}

abbrev entry_at : ℕ → TcpDataQueueEntry
entry_at seq = record {
  first_sent_at = 1000000;
  last_sent_at = 1000000;
  retry_interval = 200000;
  seq_num = seq;
  flags = 0x18;
  payload = text;
}

abbrev world : World
world = record {
  host = host_of addr_two 2;
  pcbs = record block { data_queue = entry_at 800 ∷ [] } ∷ new_pcb ∷ [];
  channels = [];
}

abbrev pushed : Delivery.Fields
pushed = record {
  seq_num = 100;
  ack_num = 900;
  flags = 0x18;
  window = 65535;
  tcp_data = text;
  local = endpoint_one;
  remote = endpoint_two;
}

input-segment_example :
    (bytes : List ℕ) × (segment_of pushed ≡ done bytes)
    × (Arrives.input env bytes (length bytes) addr_one addr_two (iface_of addr_two) 7 world ≡ (
        if is_unicast (iface_of addr_two) addr_one addr_two
        then (Arrives.segment_arrives env (arrival pushed 7) world >>= λ w'. done (ok tt, w'))
        else panic))
input-segment_example = input-segment env pushed (iface_of addr_two) 7 world (record {
  seq_small = omega arith;
  ack_small = omega arith;
  flags_small = omega arith;
  window_small = omega arith;
  local_small = omega arith;
  remote_small = omega arith;
  fits = omega arith;
  data_bytes = omega arith;
})

receive_take-IsWindow_example :
    (taken : List ℕ) × (pcb' : TcpPcb) × (receive_take 0 1 none (record world { pcbs = block ∷ [] })
      ≡ done (taken, put_pcb (record world { pcbs = block ∷ [] }) 0 pcb'))
    × IsWindow pcb'
    × (taken ++ pcb'.buf ≡ 1 ∷ 2 ∷ [])
    × (length taken ≤ 1)
receive_take-IsWindow_example =
    receive_take-IsWindow 0 1 none (record world { pcbs = block ∷ [] }) block refl (omega arith)

new_entry-Taken_example :
    Taken 0 (block ∷ new_pcb ∷ new_pcb ∷ []) (new_entry (block ∷ new_pcb ∷ new_pcb ∷ []))
new_entry-Taken_example = new_entry-Taken (block ∷ new_pcb ∷ new_pcb ∷ [])

retransmit-AllOverdue_example :
    retransmit env world
    ≡ done (record world { pcbs = record block { data_queue = [] } ∷ new_pcb ∷ [] })
retransmit-AllOverdue_example = retransmit-AllOverdue env world (
  record {
    awake = refl;
    overdue = (record { past = omega arith; young = omega arith; due = omega arith }, tt);
  },
  (record { awake = refl; overdue = tt }, tt),
)

clean_queue_lem_example :
    (clean_queue 102 (entry_at 100 ∷ entry_at 101 ∷ entry_at 102 ∷ [])
      ≡ entry_at 100 ∷ entry_at 102 ∷ [])
    × (clean_queue 102 (entry_at 102 ∷ []) ≡ entry_at 102 ∷ [])
clean_queue_lem_example =
    clean_queue_lem 102 (entry_at 100 ∷ []) (entry_at 101) (entry_at 102 ∷ []) (omega arith)
      (omega arith) (omega arith)

abbrev segment_bytes : List ℕ
segment_bytes = replicate 12 1 ++ (80 ∷ 24 ∷ replicate 6 0) ++ text

bytes_to_header-HasWidths_example :
    (h : TcpHeader) × (Arrives.bytes_to_header segment_bytes ≡ done h)
    × HasWidths h
    × (header_bytes h ++ text ≡ segment_bytes)
bytes_to_header-HasWidths_example =
    bytes_to_header-HasWidths segment_bytes (omega arith) (omega arith)
