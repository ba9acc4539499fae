-- ===== src/Tcp/Queue.antt =====
-- What the queues of src/protocols/ip/tcp.rs keep after an acknowledgement, and after a pass of
-- `retransmit`.
use rust_user_net.Base.{
  Returns, Returns-bind, Returns-then, ℕ, ◌+◌, ◌/◌, ◌≤◌, ◌<◌, ◌≡◌, refl, ap, List, [], ◌∷◌, ◌++◌,
  Option, none, some, Bool, true, false, All, length, arith, ◌∙◌, leb, ltb, ◌==◌, if◌then◌else◌,
  Run, done, ◌>>=◌, unwrap, ◌⊎◌, inl, inr, ==→eq, Bool-cases,
}
use rust_user_net.Channel.{Channels}
use rust_user_net.Device.Types.{Env}
use rust_user_net.Context.{Host}
use rust_user_net.Tcp.Types.{TcpPcb, TcpDataQueueEntry, state_tag, tcp_retransmit_timout_sec}
use rust_user_net.Tcp.Pcbs.{last_acked, remove_at, clean_queue, release}
use rust_user_net.Tcp.World.{World}
use rust_user_net.Tcp.Retransmit.{elapsed, drain, retransmit_pcb, retransmit_from, retransmit}

abbrev IsDrained : TcpPcb → Type 0
IsDrained pcb = (state_tag pcb.state ≡ 0) ⊎ (pcb.data_queue ≡ [])

abbrev IsDrainedAt : TcpPcb × Host × Channels → Type 0
IsDrainedAt r = IsDrained r.0

-- The two ways in which a round goes on, and the one in which it ends.
round-IsDrained :
    (late due : Bool) (next : Run (ℕ × Host)) (host : Host) (gone : TcpPcb × Host × Channels)
    (continue_ : Host → Run (TcpPcb × Host × Channels))
    → IsDrainedAt gone
    → ((h : Host) → Returns IsDrainedAt (continue_ h))
    → Returns IsDrainedAt
        (if late then done gone else if due then (next >>= λ r. continue_ r.1) else continue_ host)
round-IsDrained true due next host gone continue_ h again = h
round-IsDrained false true next host gone continue_ h again =
    Returns-bind IsDrainedAt next (λ r. continue_ r.1) (λ r. again r.1)
round-IsDrained false false next host gone continue_ h again = again host

drain-IsDrained :
    (env : Env) (pcb : TcpPcb) (queue : List TcpDataQueueEntry) (host : Host) (channels : Channels)
    → Returns IsDrainedAt (drain env pcb queue host channels)
unfolding drain release
drain-IsDrained env pcb [] host channels = inr refl
drain-IsDrained env pcb (entry ∷ rest) host channels =
    Returns-bind IsDrainedAt (elapsed env.now entry.first_sent_at) _ (λ age.
      round-IsDrained (leb tcp_retransmit_timout_sec (age / 1000000)) _ _ host
        ((release pcb channels).0, host, (release pcb channels).1)
        (λ h. drain env pcb rest h channels) (inl refl)
        (λ h. drain-IsDrained env pcb rest h channels))

waited-IsDrained :
    (over : Bool) (gone : TcpPcb × Host × Channels) (rest : Run (TcpPcb × Host × Channels))
    → IsDrainedAt gone
    → Returns IsDrainedAt rest
    → Returns IsDrainedAt (if over then done gone else rest)
waited-IsDrained true gone rest h hr = h
waited-IsDrained false gone rest h hr = hr

retransmit_pcb-IsDrained :
    (env : Env) (pcb : TcpPcb) (host : Host) (channels : Channels)
    → Returns IsDrainedAt (retransmit_pcb env pcb host channels)
unfolding retransmit_pcb release
retransmit_pcb-IsDrained env pcb host channels =
    let drained = drain-IsDrained env pcb pcb.data_queue host channels in
    elim (Bool-cases (state_tag pcb.state == 0)) [
      | inl e ↦ rw e (inl (==→eq (state_tag pcb.state) 0 e))
      | inr e ↦ rw e (elim (Bool-cases (state_tag pcb.state == 9)) [
        | inr f ↦ rw f drained
        | inl f ↦ rw f (
            Returns-bind IsDrainedAt (unwrap pcb.wait_time) _ (λ t.
              Returns-bind IsDrainedAt (elapsed env.now t) _ (λ over.
                waited-IsDrained (ltb 0 over)
                  ((release pcb channels).0, host, (release pcb channels).1)
                  (drain env pcb pcb.data_queue host channels) (inl refl) drained)))
      ])
    ]

retransmit_from-IsDrained :
    (env : Env) (pcbs : List TcpPcb) (host : Host) (channels : Channels)
    → Returns (λ r. All IsDrained r.0) (retransmit_from env pcbs host channels)
unfolding retransmit_from
retransmit_from-IsDrained env [] host channels = tt
retransmit_from-IsDrained env (pcb ∷ pcbs) host channels =
    Returns-then IsDrainedAt (λ r. All IsDrained r.0) (retransmit_pcb env pcb host channels) _
      (retransmit_pcb-IsDrained env pcb host channels)
      (λ x hx.
        Returns-then (λ r. All IsDrained r.0) (λ r. All IsDrained r.0)
          (retransmit_from env pcbs x.1 x.2) _ (retransmit_from-IsDrained env pcbs x.1 x.2)
          (λ y hy. (hx, hy)))

-- After a pass of `retransmit` that returns, every block is free or has an empty queue.
retransmit-IsDrained :
    (env : Env) (w : World) → Returns (λ w'. All IsDrained w'.pcbs) (retransmit env w)
unfolding retransmit
retransmit-IsDrained env w =
    Returns-then (λ r. All IsDrained r.0) (λ w'. All IsDrained w'.pcbs)
      (retransmit_from env w.pcbs w.host w.channels) _
      (retransmit_from-IsDrained env w.pcbs w.host w.channels) (λ r h. h)

abbrev pub IsAcked : ℕ → TcpDataQueueEntry → Type 0
IsAcked una entry = entry.seq_num < una

-- The entries start with one that is not acknowledged, if there is one.
abbrev pub StartsUnacked : ℕ → List TcpDataQueueEntry → Type 0
StartsUnacked una [] = Unit
StartsUnacked una (entry ∷ entries) = una ≤ entry.seq_num

last_acked-stops :
    (una i : ℕ) (found : Option ℕ) (rest : List TcpDataQueueEntry)
    → StartsUnacked una rest
    → last_acked una i found rest ≡ found
unfolding last_acked
last_acked-stops una i found [] h = refl
last_acked-stops una i found (entry ∷ rest) h = ground arith

last_acked-next :
    (una i : ℕ) (found : Option ℕ) (entry : TcpDataQueueEntry) (entries : List TcpDataQueueEntry)
    → IsAcked una entry
    → last_acked una i found (entry ∷ entries) ≡ last_acked una (i + 1) (some i) entries
unfolding last_acked
last_acked-next una i found entry entries h = ground arith

last_acked_lem :
    (una i : ℕ) (found : Option ℕ) (front : List TcpDataQueueEntry) (entry : TcpDataQueueEntry)
    (rest : List TcpDataQueueEntry)
    → All (IsAcked una) front
    → IsAcked una entry
    → StartsUnacked una rest
    → last_acked una i found (front ++ entry ∷ rest) ≡ some (i + length front)
last_acked_lem una i found [] entry rest h he hr =
    last_acked-next una i found entry rest he
    ∙ last_acked-stops una (i + 1) (some i) rest hr
    ∙ ap some (omega arith)
last_acked_lem una i found (x ∷ front) entry rest h he hr =
    last_acked-next una i found x (front ++ entry ∷ rest) h.0
    ∙ last_acked_lem una (i + 1) (some i) front entry rest h.1 he hr
    ∙ ap some (omega arith)

zero_add : (n : ℕ) → 0 + n ≡ n
zero_add n = omega arith

remove_at-length :
    (front : List TcpDataQueueEntry) (entry : TcpDataQueueEntry) (rest : List TcpDataQueueEntry)
    → remove_at (length front) (front ++ entry ∷ rest) ≡ front ++ rest
unfolding remove_at
remove_at-length [] entry rest = refl
remove_at-length (x ∷ front) entry rest = ap (◌∷◌ x) (remove_at-length front entry rest)

-- An acknowledgement of a queue removes one entry, the last of those at its front that are
-- acknowledged; the acknowledged ones before it stay, and so does all that follows it. A queue that
-- starts with an entry that is not acknowledged does not change.
pub clean_queue_lem :
    (una : ℕ) (front : List TcpDataQueueEntry) (entry : TcpDataQueueEntry)
    (rest : List TcpDataQueueEntry)
    → All (IsAcked una) front
    → IsAcked una entry
    → StartsUnacked una rest
    → (clean_queue una (front ++ entry ∷ rest) ≡ front ++ rest) × (clean_queue una rest ≡ rest)
unfolding clean_queue
clean_queue_lem una front entry rest h he hr = (
  rw (clean_queue, last_acked_lem una 0 none front entry rest h he hr, zero_add (length front))
      (remove_at-length front entry rest),
  rw (clean_queue, last_acked-stops una 0 none rest hr) refl,
)
