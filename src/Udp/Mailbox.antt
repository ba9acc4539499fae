-- ===== src/Udp/Mailbox.antt =====
-- The data of a block of src/protocols/ip/udp.rs as a queue: what arrives is put behind what is there,
-- and `receive_from` takes from the front.
pub mod Fifo
use rust_user_net.Base.{
  ℕ, ◌≡◌, ◌≢◌, ◌∙◌, refl, ap, sym, List, [], ◌∷◌, ◌++◌, Option, none, some, Bool, not, Run, done,
  ◌>>=◌, ◌>>◌, Res, ok, err, unwrap, check, get_elem?, set, get_elem?-set_self, get_elem?-set_ne,
  append_assoc, append-nil, Option-cases, inl, inr, if◌then◌else◌, Ensures, Ensures-done,
  Ensures-panic, Ensures-bind, Ensures-if, Ensures-then, Ensures-returned, zero, suc, ◌+◌,
}
use native.Mathlib.Decide.{ℕ_discrete}
use rust_user_net.Channel.{Channels, drop_receiver}
use rust_user_net.Ip.Route.{IpEndpoint}
use rust_user_net.Udp.Pcbs.{UdpPcb, UdpPcbs, UdpPcbState, UdpDataEntry, state_eq, get_by_host}
use rust_user_net.Udp.Datagram.{accept}
use rust_user_net.Udp.Socket.{receive_start, receive_wake, pop_entry, open_socket, open_first, bind}

abbrev entries_of : Option UdpPcb → List UdpDataEntry
entries_of none = []
entries_of (some pcb) = pcb.data_entries

-- What a block holds.
abbrev pub mailbox : UdpPcbs → ℕ → List UdpDataEntry
mailbox pcbs pcb_id = entries_of (get_elem? pcbs.entries pcb_id)

pub record Same (pcbs pcbs' : UdpPcbs) : Type 0 where
  pub at : (j : ℕ) → mailbox pcbs' j ≡ mailbox pcbs j

-- The block holds `entries` after a step, and the others what they held.
pub record Changed (pcbs : UdpPcbs) (pcb_id : ℕ) (entries : List UdpDataEntry) (pcbs' : UdpPcbs)
    : Type 0 where
  pub here : mailbox pcbs' pcb_id ≡ entries
  pub elsewhere : (j : ℕ) → pcb_id ≢ j → mailbox pcbs' j ≡ mailbox pcbs j

set-Changed :
    (pcbs : UdpPcbs) (pcb_id : ℕ) (pcb pcb' : UdpPcb)
    → get_elem? pcbs.entries pcb_id ≡ some pcb
    → Changed pcbs pcb_id pcb'.data_entries (record { entries = set pcbs.entries pcb_id pcb' })
set-Changed pcbs pcb_id pcb pcb' e = record {
  here = ap entries_of (get_elem?-set_self pcbs.entries pcb_id pcb' pcb e);
  elsewhere = λ j ne. ap entries_of (get_elem?-set_ne pcbs.entries pcb_id j pcb' ne);
}

pub accept-Changed :
    (pcbs : UdpPcbs) (channels : Channels) (pcb_id : ℕ) (entry : UdpDataEntry)
    → Ensures
        (λ r. Changed pcbs pcb_id (mailbox pcbs pcb_id ++ entry ∷ []) r.1)
        (accept pcbs channels pcb_id entry)
unfolding accept
accept-Changed pcbs channels pcb_id entry = elim (Option-cases (get_elem? pcbs.entries pcb_id)) [
  | inl e ↦ rw (e, accept) Ensures-panic
  | inr (pcb, e) ↦
      rw (e, accept)
        (Ensures-bind (unwrap pcb.sender)
          (λ s. Ensures-bind _ (λ _. Ensures-done (set-Changed pcbs pcb_id pcb _ e))))
]

-- A block is written back with the data that it had.
set-Same :
    (pcbs : UdpPcbs) (pcb_id : ℕ) (pcb pcb' : UdpPcb)
    → get_elem? pcbs.entries pcb_id ≡ some pcb
    → pcb'.data_entries ≡ pcb.data_entries
    → Same pcbs (record { entries = set pcbs.entries pcb_id pcb' })
set-Same pcbs pcb_id pcb pcb' e h =
    let c = set-Changed pcbs pcb_id pcb pcb' e in
    record {
      at = λ j. elim (ℕ_discrete pcb_id j) [
        | yes i ↦
            ap (mailbox (record { entries = set pcbs.entries pcb_id pcb' })) (sym i)
            ∙ (c.here ∙ (h ∙ (sym (ap entries_of e) ∙ ap (mailbox pcbs) i)))
        | no ne ↦ c.elsewhere j ne
      ];
    }

-- What `receive_wake` answers, and what it leaves.
unfoldable pub Taken : UdpPcbs → ℕ → Option UdpDataEntry × UdpPcbs × Channels → Type 0
Taken pcbs pcb_id (none, pcbs', channels) = Same pcbs pcbs'
Taken pcbs pcb_id (some entry, pcbs', channels) =
    (rest : List UdpDataEntry) × (mailbox pcbs pcb_id ≡ entry ∷ rest)
    × Changed pcbs pcb_id rest pcbs'

pop_entry-Taken :
    (pcbs : UdpPcbs) (pcb_id : ℕ) (pcb : UdpPcb) (entries : List UdpDataEntry) (channels : Channels)
    → get_elem? pcbs.entries pcb_id ≡ some pcb
    → pcb.data_entries ≡ entries
    → Taken pcbs pcb_id
        ((pop_entry pcbs pcb_id pcb entries).0, (pop_entry pcbs pcb_id pcb entries).1, channels)
unfolding Taken pop_entry
pop_entry-Taken pcbs pcb_id pcb [] channels e h = record { at = λ j. refl }
pop_entry-Taken pcbs pcb_id pcb (entry ∷ rest) channels e h =
    (rest, ap entries_of e ∙ h, set-Changed pcbs pcb_id pcb _ e)

nothing-Taken :
    (pcbs : UdpPcbs) (pcb_id : ℕ) (channels : Channels)
    → Ensures {A = Option UdpDataEntry × UdpPcbs × Channels}
        (Taken pcbs pcb_id)
        (done (none, pcbs, channels))
unfolding Taken
nothing-Taken pcbs pcb_id channels =
    Ensures-done {a = (none, pcbs, channels)} (record { at = λ j. refl })

pub receive_wake-Taken :
    (pcbs : UdpPcbs) (pcb_id receiver : ℕ) (message : Bool) (channels : Channels)
    → Ensures (Taken pcbs pcb_id) (receive_wake pcbs pcb_id receiver message channels)
unfolding receive_wake Taken
receive_wake-Taken pcbs pcb_id receiver message channels =
    elim (Option-cases (get_elem? pcbs.entries pcb_id)) [
      | inl e ↦ rw (e, receive_wake) (Ensures-if _ (nothing-Taken pcbs pcb_id _) Ensures-panic)
      | inr (pcb, e) ↦
          rw (e, receive_wake)
            (Ensures-if (not message) (nothing-Taken pcbs pcb_id (drop_receiver channels receiver))
              (Ensures-if (not (state_eq pcb.state UdpPcbState.open_))
                (nothing-Taken pcbs pcb_id (drop_receiver channels receiver))
                (Ensures-done (
                  pop_entry-Taken pcbs pcb_id pcb pcb.data_entries (drop_receiver channels receiver)
                    e refl))))
    ]

pub receive_start-Same :
    (pcbs : UdpPcbs) (pcb_id : ℕ) (channels : Channels)
    → Ensures (λ r. Same pcbs r.1) (receive_start pcbs pcb_id channels)
unfolding receive_start
receive_start-Same pcbs pcb_id channels = elim (Option-cases (get_elem? pcbs.entries pcb_id)) [
  | inl e ↦ rw (e, receive_start) Ensures-panic
  | inr (pcb, e) ↦ rw (e, receive_start) (Ensures-done (set-Same pcbs pcb_id pcb _ e refl))
]

pub bind-Same :
    (pcbs : UdpPcbs) (pcb_id : ℕ) (local : IpEndpoint)
    → Ensures (Same pcbs) (bind pcbs pcb_id local)
unfolding bind
bind-Same pcbs pcb_id local = elim (Option-cases (get_by_host pcbs local.address local.port)) [
  | inr (i, e) ↦ rw (e, bind) Ensures-panic
  | inl free ↦ elim (Option-cases (get_elem? pcbs.entries pcb_id)) [
    | inl e ↦ rw (free, e, bind) Ensures-panic
    | inr (pcb, e) ↦ rw (free, e, bind) (Ensures-done (set-Same pcbs pcb_id pcb _ e refl))
  ]
]

-- Blocks by their place, with what each holds.
record Keeps (pcbs pcbs' : List UdpPcb) : Type 0 where
  at : (j : ℕ) → entries_of (get_elem? pcbs' j) ≡ entries_of (get_elem? pcbs j)

cons-Keeps :
    (pcb pcb' : UdpPcb) (pcbs pcbs' : List UdpPcb)
    → pcb'.data_entries ≡ pcb.data_entries
    → Keeps pcbs pcbs'
    → Keeps (pcb ∷ pcbs) (pcb' ∷ pcbs')
cons-Keeps pcb pcb' pcbs pcbs' h k = record { at = at_place }
  where
    at_place :
        (j : ℕ) → entries_of (get_elem? (pcb' ∷ pcbs') j) ≡ entries_of (get_elem? (pcb ∷ pcbs) j)
    at_place zero = h
    at_place (suc j) = k.at j

open_first-Keeps : (i : ℕ) (pcbs : List UdpPcb) → Ensures (λ r. Keeps pcbs r.1) (open_first i pcbs)
unfolding open_first
open_first-Keeps i [] = Ensures-panic
open_first-Keeps i (pcb ∷ pcbs) =
    Ensures-if _ (Ensures-done (cons-Keeps pcb _ pcbs pcbs refl (record { at = λ j. refl }))) (
      Ensures-then (open_first (i + 1) pcbs) (open_first-Keeps (i + 1) pcbs)
        (λ r hr. Ensures-done (cons-Keeps pcb pcb pcbs r.1 refl hr)))

pub open_socket-Same : (pcbs : UdpPcbs) → Ensures (λ r. Same pcbs r.1) (open_socket pcbs)
unfolding open_socket
open_socket-Same pcbs =
    Ensures-then (open_first 0 pcbs.entries) (open_first-Keeps 0 pcbs.entries)
      (λ r hr. Ensures-done (record { at = hr.at }))
