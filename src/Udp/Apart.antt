-- ===== src/Udp/Apart.antt =====
-- When the blocks of src/protocols/ip/udp.rs are apart: no two are bound to one endpoint.
pub mod Steps
use rust_user_net.Base.{
  ℕ, zero, suc, ◌+◌, ◌≡◌, ◌≢◌, ◌∙◌, refl, sym, ap, List, [], ◌∷◌, Option, none, some, Bool, true,
  false, not, ◌&&◌, ◌||◌, ◌==◌, if◌then◌else◌, Run, done, ◌>>=◌, ◌>>◌, Res, unwrap, get_elem?, set,
  All, All-set, All-get_elem?, All-replicate, get_elem?-set_self, get_elem?-set_ne, Option-cases,
  inl, inr, ◌⊎◌, arith, Ensures, Ensures-done, Ensures-panic, Ensures-bind, Ensures-if,
  Ensures-test, Ensures-then, Ensures-returned,
}
use mathlib.Core.Option.{some-injective}
use mathlib.Core.Bool.{true≢false}
use native.Mathlib.Decide.{ℕ_discrete}
use rust_user_net.Channel.{Channels, drop_receiver}
use rust_user_net.Ip.Route.{IpEndpoint, ip_addr_any}
use rust_user_net.Udp.Pcbs.{
  UdpPcb, UdpPcbs, UdpPcbState, UdpDataEntry, state_eq, serves, find_host, get_by_host, new_pcb,
  new_pcbs, udp_pcb_count, delete_entry,
}
use rust_user_net.Udp.Datagram.{accept}
use rust_user_net.Udp.Socket.{receive_start, receive_wake, pop_entry, open_socket, open_first, bind}

-- The block is bound to the endpoint, open or not.
abbrev pub holds : UdpPcb → ℕ → ℕ → Bool
holds pcb addr port =
    (pcb.local_endpoint.address == ip_addr_any
      || addr == ip_addr_any
      || pcb.local_endpoint.address == addr)
    && pcb.local_endpoint.port == port

-- A block that is not open is not bound.
abbrev pub Tidy : UdpPcb → Type 0
Tidy pcb = state_eq pcb.state UdpPcbState.open_ ≡ false → pcb.local_endpoint.port ≡ 0

-- No block that is not open is bound, and no two blocks are bound to one endpoint.
pub record IsApart (pcbs : List UdpPcb) : Type 0 where
  pub tidy : All Tidy pcbs
  pub apart :
      (addr port i j : ℕ) (q r : UdpPcb)
      → addr ≢ ip_addr_any
      → port ≢ 0
      → get_elem? pcbs i ≡ some q
      → get_elem? pcbs j ≡ some r
      → holds q addr port ≡ true
      → holds r addr port ≡ true
      → i ≡ j

-- Whatever the block serves, the other one does.
pub record Within (new old : UdpPcb) : Type 0 where
  pub within : (addr port : ℕ) → port ≢ 0 → holds new addr port ≡ true → holds old addr port ≡ true

back :
    (pcbs : List UdpPcb) (k j : ℕ) (old new r : UdpPcb)
    → get_elem? pcbs k ≡ some old
    → Within new old
    → get_elem? (set pcbs k new) j ≡ some r
    → (r' : UdpPcb) × (get_elem? pcbs j ≡ some r') × Within r r'
back pcbs k j old new r there w e = elim (ℕ_discrete k j) [
  | yes i ↦
      let same : new ≡ r =
        some-injective new r (
          sym (get_elem?-set_self pcbs k new old there)
          ∙ (ap (get_elem? (set pcbs k new)) i ∙ e)) in
      (old, ap (get_elem? pcbs) (sym i) ∙ there, rw (← same) w)
  | no ne ↦ (r, sym (get_elem?-set_ne pcbs k j new ne) ∙ e, record { within = λ addr port np h. h })
]

pub set-IsApart :
    (pcbs : List UdpPcb) (k : ℕ) (old new : UdpPcb)
    → IsApart pcbs
    → get_elem? pcbs k ≡ some old
    → Tidy new
    → Within new old
    → IsApart (set pcbs k new)
set-IsApart pcbs k old new h there t w = record {
  tidy = All-set Tidy pcbs k new h.tidy t;
  apart = λ addr port i j q r na np eq er hq hr.
      let (q', eq', wq) = back pcbs k i old new q there w eq in
      let (r', er', wr) = back pcbs k j old new r there w er in
      h.apart addr port i j q' r' na np eq' er' (wq.within addr port np hq)
        (wr.within addr port np hr);
}

-- The block is written with the endpoint and the state that it had.
pub keep-IsApart :
    (pcbs : List UdpPcb) (k : ℕ) (old new : UdpPcb)
    → IsApart pcbs
    → get_elem? pcbs k ≡ some old
    → new.state ≡ old.state
    → new.local_endpoint ≡ old.local_endpoint
    → IsApart (set pcbs k new)
keep-IsApart pcbs k old new h there es el =
    set-IsApart pcbs k old new h there (rw (es, el) (All-get_elem? Tidy pcbs k old h.tidy there))
      (record { within = λ addr port np hn. rw (← el) hn })

-- In a list that serves an endpoint nowhere, no open block is bound to it.
missed :
    (i j : ℕ) (pcbs : List UdpPcb) (q : UdpPcb) (addr port : ℕ)
    → find_host i pcbs addr port ≡ none
    → get_elem? pcbs j ≡ some q
    → serves q addr port ≡ false
unfolding find_host
missed i j [] q addr port miss e = cc
missed i zero (pcb ∷ pcbs) q addr port miss e =
    rw (← some-injective pcb q e) (no_hit (serves pcb addr port) _ miss)
  where
    no_hit : (b : Bool) (rest : Option ℕ) → (if b then some i else rest) ≡ none → b ≡ false
    no_hit true rest h = cc
    no_hit false rest h = refl
missed i (suc j) (pcb ∷ pcbs) q addr port miss e =
    missed (i + 1) j pcbs q addr port (later (serves pcb addr port) _ miss) e
  where
    later : (b : Bool) (rest : Option ℕ) → (if b then some i else rest) ≡ none → rest ≡ none
    later true rest h = cc
    later false rest h = h

-- Two endpoints that both hold one address and port hold each other.
overlap :
    (x y a p u v : ℕ)
    → a ≢ 0
    → ((u == 0 || a == 0 || u == a) && v == p) ≡ true
    → ((x == 0 || a == 0 || x == a) && y == p) ≡ true
    → ((x == 0 || u == 0 || x == u) && y == v) ≡ true
overlap x y a p u v na hn hq = ground arith

pub off_port : (b : Bool) (n port : ℕ) → port ≢ 0 → n ≡ 0 → (b && n == port) ≡ true → ⊥
off_port b n port np e hn = ground arith

-- The block that is bound is the only one for its endpoint.
bound_alone :
    (pcbs : UdpPcbs) (j addr port : ℕ) (new q : UdpPcb)
    → IsApart pcbs.entries
    → get_by_host pcbs new.local_endpoint.address new.local_endpoint.port ≡ none
    → get_elem? pcbs.entries j ≡ some q
    → addr ≢ ip_addr_any
    → port ≢ 0
    → holds new addr port ≡ true
    → holds q addr port ≡ true
    → ⊥
unfolding get_by_host serves
bound_alone pcbs j addr port new q h free e na np hn hq =
    let both : holds q new.local_endpoint.address new.local_endpoint.port ≡ true =
      overlap q.local_endpoint.address q.local_endpoint.port addr port new.local_endpoint.address
        new.local_endpoint.port na hn hq in
    let closed =
      closed_if (state_eq q.state UdpPcbState.open_) _ both
        (missed 0 j pcbs.entries q new.local_endpoint.address new.local_endpoint.port free e) in
    off_port _ q.local_endpoint.port port np (All-get_elem? Tidy pcbs.entries j q h.tidy e closed)
      hq
  where
    closed_if : (a b : Bool) → b ≡ true → (a && b) ≡ false → a ≡ false
    closed_if a b h e = ground arith

-- What stands at a place after a write: the new block, or what stood there.
set-Place :
    (pcbs : List UdpPcb) (k i : ℕ) (old new q : UdpPcb)
    → get_elem? pcbs k ≡ some old
    → get_elem? (set pcbs k new) i ≡ some q
    → ((k ≡ i) × (new ≡ q)) ⊎ (get_elem? pcbs i ≡ some q)
set-Place pcbs k i old new q there e = elim (ℕ_discrete k i) [
  | yes same ↦ inl (
    same,
    some-injective new q (
        sym (get_elem?-set_self pcbs k new old there) ∙ (ap (get_elem? (set pcbs k new)) same ∙ e)),
  )
  | no ne ↦ inr (sym (get_elem?-set_ne pcbs k i new ne) ∙ e)
]

Tidy-open : (pcb : UdpPcb) → pcb.state ≡ UdpPcbState.open_ → Tidy pcb
unfolding state_eq
Tidy-open pcb e = rw e (λ closed. absurd (true≢false closed))

pub bound-IsApart :
    (pcbs : UdpPcbs) (k : ℕ) (old new : UdpPcb)
    → IsApart pcbs.entries
    → get_elem? pcbs.entries k ≡ some old
    → new.state ≡ UdpPcbState.open_
    → get_by_host pcbs new.local_endpoint.address new.local_endpoint.port ≡ none
    → IsApart (set pcbs.entries k new)
bound-IsApart pcbs k old new h there is_open free = record {
  tidy = All-set Tidy pcbs.entries k new h.tidy (Tidy-open new is_open);
  apart = λ addr port i j q r na np eq er hq hr.
      elim (set-Place pcbs.entries k i old new q there eq) [
        | inl (ki, nq) ↦ elim (set-Place pcbs.entries k j old new r there er) [
          | inl (kj, nr) ↦ sym ki ∙ kj
          | inr at ↦ absurd (bound_alone pcbs j addr port new r h free at na np (rw nq hq) hr)
        ]
        | inr at ↦ elim (set-Place pcbs.entries k j old new r there er) [
          | inl (kj, nr) ↦ absurd (bound_alone pcbs i addr port new q h free at na np (rw nr hr) hq)
          | inr at' ↦ h.apart addr port i j q r na np at at' hq hr
        ]
      ];
}
