-- ===== src/Udp/Apart/Steps.antt =====
-- The steps of the table of src/protocols/ip/udp.rs, and which block a datagram can be for.
use rust_user_net.Base.{
  ℕ, suc, ◌+◌, ◌≡◌, ◌≢◌, refl, ap, List, [], ◌∷◌, Option, some, Bool, true, false, not, ◌&&◌, done,
  Res, unwrap, get_elem?, set, All-get_elem?, All-replicate, Option-cases, inl, inr, arith, Ensures,
  Ensures-done, Ensures-panic, Ensures-bind, Ensures-if, Ensures-test, Ensures-then,
  Ensures-returned,
}
use mathlib.Core.Bool.{true≢false}
use rust_user_net.Channel.{Channels}
use rust_user_net.Ip.Route.{IpEndpoint, ip_addr_any}
use rust_user_net.Udp.Pcbs.{
  UdpPcb, UdpPcbs, UdpPcbState, UdpDataEntry, state_eq, serves, get_by_host, new_pcb, new_pcbs,
  udp_pcb_count, delete_entry,
}
use rust_user_net.Udp.Datagram.{accept}
use rust_user_net.Udp.Socket.{receive_start, receive_wake, pop_entry, open_socket, open_first, bind}
use rust_user_net.Udp.Apart.{
  holds, Tidy, IsApart, Within, set-IsApart, keep-IsApart, bound-IsApart, off_port,
}

bind-IsApart :
    (pcbs : UdpPcbs) (pcb_id : ℕ) (pcb : UdpPcb) (local : IpEndpoint)
    → IsApart pcbs.entries
    → get_elem? pcbs.entries pcb_id ≡ some pcb
    → pcb.state ≡ UdpPcbState.open_
    → Ensures (λ r. IsApart r.entries) (bind pcbs pcb_id local)
unfolding bind
bind-IsApart pcbs pcb_id pcb local h there is_open =
    elim (Option-cases (get_by_host pcbs local.address local.port)) [
      | inr (i, e) ↦ rw (e, bind) Ensures-panic
      | inl free ↦
          rw (free, there, bind)
            (Ensures-done (bound-IsApart pcbs pcb_id pcb _ h there is_open free))
    ]

open_first-IsSet :
    (i : ℕ) (pcbs : List UdpPcb)
    → Ensures
        (λ r.
          (k : ℕ) × (old : UdpPcb) × (get_elem? pcbs k ≡ some old)
          × (r.1 ≡ set pcbs k (record old { state = UdpPcbState.open_ }))
          × (state_eq old.state UdpPcbState.free ≡ true))
        (open_first i pcbs)
unfolding open_first
open_first-IsSet i [] = Ensures-panic
open_first-IsSet i (pcb ∷ pcbs) =
    Ensures-test _ (λ e. Ensures-done (0, pcb, refl, refl, e))
      (λ _.
        Ensures-then (open_first (i + 1) pcbs) (open_first-IsSet (i + 1) pcbs)
          (λ r (k, old, there, e, f). Ensures-done (suc k, old, there, ap (◌∷◌ pcb) e, f)))

open_socket-IsApart :
    (pcbs : UdpPcbs) → IsApart pcbs.entries → Ensures (λ r. IsApart r.1.entries) (open_socket pcbs)
unfolding open_socket
open_socket-IsApart pcbs h =
    Ensures-then (open_first 0 pcbs.entries) (open_first-IsSet 0 pcbs.entries)
      (λ r (k, old, there, e, f). Ensures-done (
        rw e (
          set-IsApart pcbs.entries k old _ h there (λ closed. absurd (true≢false closed))
            (record { within = λ addr port np hn. hn }))))

-- A block that is not bound to a port holds nothing.
unbound-Within : (new old : UdpPcb) → new.local_endpoint.port ≡ 0 → Within new old
unbound-Within new old e = record { within = λ addr port np hn. absurd (off_port _ _ port np e hn) }

delete_entry-IsApart :
    (pcbs : UdpPcbs) (pcb_id : ℕ) (channels : Channels)
    → IsApart pcbs.entries
    → Ensures (λ r. IsApart r.0.entries) (delete_entry pcbs pcb_id channels)
unfolding delete_entry
delete_entry-IsApart pcbs pcb_id channels h = elim (Option-cases (get_elem? pcbs.entries pcb_id)) [
  | inl e ↦ rw (e, delete_entry) Ensures-panic
  | inr (pcb, e) ↦
      rw (e, delete_entry)
        (Ensures-bind _ (λ _.
          Ensures-done
            (set-IsApart pcbs.entries pcb_id pcb _ h e (λ _. refl) (unbound-Within _ pcb refl))))
]

accept-IsApart :
    (pcbs : UdpPcbs) (channels : Channels) (pcb_id : ℕ) (entry : UdpDataEntry)
    → IsApart pcbs.entries
    → Ensures (λ r. IsApart r.1.entries) (accept pcbs channels pcb_id entry)
unfolding accept
accept-IsApart pcbs channels pcb_id entry h = elim (Option-cases (get_elem? pcbs.entries pcb_id)) [
  | inl e ↦ rw (e, accept) Ensures-panic
  | inr (pcb, e) ↦
      rw (e, accept)
        (Ensures-bind (unwrap pcb.sender) (λ s.
          Ensures-bind _
            (λ _. Ensures-done (keep-IsApart pcbs.entries pcb_id pcb _ h e refl refl))))
]

receive_start-IsApart :
    (pcbs : UdpPcbs) (pcb_id : ℕ) (channels : Channels)
    → IsApart pcbs.entries
    → Ensures (λ r. IsApart r.1.entries) (receive_start pcbs pcb_id channels)
unfolding receive_start
receive_start-IsApart pcbs pcb_id channels h = elim (Option-cases (get_elem? pcbs.entries pcb_id)) [
  | inl e ↦ rw (e, receive_start) Ensures-panic
  | inr (pcb, e) ↦
      rw (e, receive_start) (Ensures-done (keep-IsApart pcbs.entries pcb_id pcb _ h e refl refl))
]

pop_entry-IsApart :
    (pcbs : UdpPcbs) (pcb_id : ℕ) (pcb : UdpPcb) (entries : List UdpDataEntry)
    → IsApart pcbs.entries
    → get_elem? pcbs.entries pcb_id ≡ some pcb
    → IsApart (pop_entry pcbs pcb_id pcb entries).1.entries
unfolding pop_entry
pop_entry-IsApart pcbs pcb_id pcb [] h e = h
pop_entry-IsApart pcbs pcb_id pcb (entry ∷ rest) h e =
    keep-IsApart pcbs.entries pcb_id pcb _ h e refl refl

receive_wake-IsApart :
    (pcbs : UdpPcbs) (pcb_id receiver : ℕ) (message : Bool) (channels : Channels)
    → IsApart pcbs.entries
    → Ensures (λ r. IsApart r.1.entries) (receive_wake pcbs pcb_id receiver message channels)
unfolding receive_wake
receive_wake-IsApart pcbs pcb_id receiver message channels h =
    elim (Option-cases (get_elem? pcbs.entries pcb_id)) [
      | inl e ↦ rw (e, receive_wake) (Ensures-if _ (Ensures-done h) Ensures-panic)
      | inr (pcb, e) ↦
          rw (e, receive_wake)
            (Ensures-if (not message) (Ensures-done h) (
              Ensures-if (not (state_eq pcb.state UdpPcbState.open_)) (Ensures-done h)
                (Ensures-done (pop_entry-IsApart pcbs pcb_id pcb pcb.data_entries h e))))
    ]

-- A call of the socket commands or an arrival of a datagram, for a block that is there. A program
-- binds the blocks that it has opened.
pub data Step : UdpPcbs → UdpPcbs → Type 0 where
  opens : (pcb_id : ℕ) {now next : UdpPcbs} → open_socket now ≡ done (pcb_id, next) → Step now next
  binds :
      (pcb_id : ℕ) (pcb : UdpPcb) (local : IpEndpoint) {now next : UdpPcbs}
      → get_elem? now.entries pcb_id ≡ some pcb
      → pcb.state ≡ UdpPcbState.open_
      → bind now pcb_id local ≡ done next
      → Step now next
  accepts :
      (pcb_id : ℕ) (entry : UdpDataEntry) (channels channels' : Channels) (res : Res (Unit {0}))
      {now next : UdpPcbs}
      → accept now channels pcb_id entry ≡ done (res, next, channels')
      → Step now next
  waits :
      (pcb_id receiver : ℕ) (channels channels' : Channels) {now next : UdpPcbs}
      → receive_start now pcb_id channels ≡ done (receiver, next, channels')
      → Step now next
  receives :
      (pcb_id : ℕ) (entry : Option UdpDataEntry) (receiver : ℕ) (message : Bool)
      (channels channels' : Channels) {now next : UdpPcbs}
      → receive_wake now pcb_id receiver message channels ≡ done (entry, next, channels')
      → Step now next
  deletes :
      (pcb_id : ℕ) (channels channels' : Channels) {now next : UdpPcbs}
      → delete_entry now pcb_id channels ≡ done (next, channels')
      → Step now next

-- The tables that steps from the one of `UdpPcbs::new` lead to.
pub data Reach : UdpPcbs → Type 0 where
  starts : Reach new_pcbs
  steps : {now next : UdpPcbs} → Reach now → Step now next → Reach next

Step-IsApart : {now next : UdpPcbs} → Step now next → IsApart now.entries → IsApart next.entries
Step-IsApart {now} (opens pcb_id e) h = Ensures-returned _ (open_socket-IsApart now h) e
Step-IsApart {now} (binds pcb_id pcb local there is_open e) h =
    Ensures-returned _ (bind-IsApart now pcb_id pcb local h there is_open) e
Step-IsApart {now} (accepts pcb_id entry channels channels' res e) h =
    Ensures-returned _ (accept-IsApart now channels pcb_id entry h) e
Step-IsApart {now} (waits pcb_id receiver channels channels' e) h =
    Ensures-returned _ (receive_start-IsApart now pcb_id channels h) e
Step-IsApart {now} (receives pcb_id entry receiver message channels channels' e) h =
    Ensures-returned _ (receive_wake-IsApart now pcb_id receiver message channels h) e
Step-IsApart {now} (deletes pcb_id channels channels' e) h =
    Ensures-returned _ (delete_entry-IsApart now pcb_id channels h) e

start-IsApart : IsApart new_pcbs.entries
start-IsApart = record {
  tidy = All-replicate Tidy udp_pcb_count new_pcb (λ _. refl);
  apart = λ addr port i j q r na np eq er hq hr. absurd (
      off_port _ _ port np
        (All-get_elem? (λ pcb. pcb.local_endpoint.port ≡ 0) new_pcbs.entries i q
          (All-replicate (λ pcb. pcb.local_endpoint.port ≡ 0) udp_pcb_count new_pcb refl) eq)
        hq);
}

Reach-IsApart : {now : UdpPcbs} → Reach now → IsApart now.entries
Reach-IsApart starts = start-IsApart
Reach-IsApart (steps r s) = Step-IsApart s (Reach-IsApart r)

serves-holds : (q : UdpPcb) (addr port : ℕ) → serves q addr port ≡ true → holds q addr port ≡ true
unfolding serves
serves-holds q addr port h = second (state_eq q.state UdpPcbState.open_) (holds q addr port) h
  where
    second : (a b : Bool) → (a && b) ≡ true → b ≡ true
    second a b h = ground arith

-- From the table of `UdpPcbs::new`, in whatever order blocks are opened, bound once they are open,
-- written by datagrams, read and deleted, when a block serves an address that is not the wildcard with
-- a port that is not 0, no other block does.
pub Reach-alone :
    (pcbs : UdpPcbs) (addr port i j : ℕ) (q r : UdpPcb)
    → Reach pcbs
    → addr ≢ ip_addr_any
    → port ≢ 0
    → get_elem? pcbs.entries i ≡ some q
    → get_elem? pcbs.entries j ≡ some r
    → serves q addr port ≡ true
    → i ≢ j
    → serves r addr port ≡ false
Reach-alone pcbs addr port i j q r reach na np eq er hq ne = alone _ (λ hr. ne (
    (Reach-IsApart reach).apart addr port i j q r na np eq er (serves-holds q addr port hq)
      (serves-holds r addr port hr)))
  where
    alone : (b : Bool) → (b ≡ true → ⊥) → b ≡ false
    alone true h = absurd (h refl)
    alone false h = refl
