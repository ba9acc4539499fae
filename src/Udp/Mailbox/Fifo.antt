-- ===== src/Udp/Mailbox/Fifo.antt =====
-- What a block of src/protocols/ip/udp.rs accepted and what was taken from it, over any calls.
use rust_user_net.Base.{
  ℕ, ◌≡◌, ◌≢◌, ◌∙◌, ap, sym, List, [], ◌∷◌, ◌++◌, Option, none, some, Bool, done, Res, append_assoc,
  append-nil, Ensures-returned,
}
use rust_user_net.Channel.{Channels}
use rust_user_net.Ip.Route.{IpEndpoint}
use rust_user_net.Udp.Pcbs.{UdpPcbs, UdpDataEntry}
use rust_user_net.Udp.Datagram.{accept}
use rust_user_net.Udp.Socket.{receive_start, receive_wake, open_socket, bind}
use rust_user_net.Udp.Mailbox.{
  mailbox, Taken, accept-Changed, receive_wake-Taken, receive_start-Same, bind-Same,
  open_socket-Same,
}

-- The history of the block `pcb_id`: what was accepted for it and what was taken from it, in the
-- order of the calls, among the calls for all blocks.
pub data History (pcb_id : ℕ) (pcbs : UdpPcbs)
    : List UdpDataEntry → List UdpDataEntry → UdpPcbs → Type 0 where
  starts : History pcb_id pcbs [] [] pcbs
  accepts :
      (entry : UdpDataEntry) (channels channels' : Channels) (res : Res (Unit {0}))
      {posted taken : List UdpDataEntry} {now next : UdpPcbs}
      → History pcb_id pcbs posted taken now
      → accept now channels pcb_id entry ≡ done (res, next, channels')
      → History pcb_id pcbs (posted ++ entry ∷ []) taken next
  receives :
      (entry : UdpDataEntry) (receiver : ℕ) (message : Bool) (channels channels' : Channels)
      {posted taken : List UdpDataEntry} {now next : UdpPcbs}
      → History pcb_id pcbs posted taken now
      → receive_wake now pcb_id receiver message channels ≡ done (some entry, next, channels')
      → History pcb_id pcbs posted (taken ++ entry ∷ []) next
  fails :
      (receiver : ℕ) (message : Bool) (channels channels' : Channels)
      {posted taken : List UdpDataEntry} {now next : UdpPcbs}
      → History pcb_id pcbs posted taken now
      → receive_wake now pcb_id receiver message channels ≡ done (none, next, channels')
      → History pcb_id pcbs posted taken next
  accepts_elsewhere :
      (other : ℕ) (entry : UdpDataEntry) (channels channels' : Channels) (res : Res (Unit {0}))
      {posted taken : List UdpDataEntry} {now next : UdpPcbs}
      → other ≢ pcb_id
      → History pcb_id pcbs posted taken now
      → accept now channels other entry ≡ done (res, next, channels')
      → History pcb_id pcbs posted taken next
  receives_elsewhere :
      (other : ℕ) (entry : Option UdpDataEntry) (receiver : ℕ) (message : Bool)
      (channels channels' : Channels) {posted taken : List UdpDataEntry} {now next : UdpPcbs}
      → other ≢ pcb_id
      → History pcb_id pcbs posted taken now
      → receive_wake now other receiver message channels ≡ done (entry, next, channels')
      → History pcb_id pcbs posted taken next
  waits :
      (other receiver : ℕ) (channels channels' : Channels) {posted taken : List UdpDataEntry}
      {now next : UdpPcbs}
      → History pcb_id pcbs posted taken now
      → receive_start now other channels ≡ done (receiver, next, channels')
      → History pcb_id pcbs posted taken next
  binds :
      (other : ℕ) (local : IpEndpoint) {posted taken : List UdpDataEntry} {now next : UdpPcbs}
      → History pcb_id pcbs posted taken now
      → bind now other local ≡ done next
      → History pcb_id pcbs posted taken next
  opens :
      (other : ℕ) {posted taken : List UdpDataEntry} {now next : UdpPcbs}
      → History pcb_id pcbs posted taken now
      → open_socket now ≡ done (other, next)
      → History pcb_id pcbs posted taken next

Taken-elsewhere :
    (pcbs : UdpPcbs) (other j : ℕ) (entry : Option UdpDataEntry) (next : UdpPcbs)
    (channels : Channels)
    → other ≢ j
    → Taken pcbs other (entry, next, channels)
    → mailbox next j ≡ mailbox pcbs j
unfolding Taken
Taken-elsewhere pcbs other j none next channels ne t = t.at j
Taken-elsewhere pcbs other j (some entry) next channels ne (rest, e, c) = c.elsewhere j ne

Taken-none :
    (pcbs : UdpPcbs) (j : ℕ) (next : UdpPcbs) (channels : Channels)
    → Taken pcbs j (none, next, channels)
    → mailbox next j ≡ mailbox pcbs j
unfolding Taken
Taken-none pcbs j next channels t = t.at j

-- What a step that keeps the data of the block leaves of the equation.
kept :
    (before posted taken held held' : List UdpDataEntry)
    → before ++ posted ≡ taken ++ held
    → held' ≡ held
    → before ++ posted ≡ taken ++ held'
kept before posted taken held held' h e = h ∙ ap (◌++◌ taken) (sym e)

accepted :
    (before posted taken held : List UdpDataEntry) (entry : UdpDataEntry)
    → before ++ posted ≡ taken ++ held
    → before ++ (posted ++ entry ∷ []) ≡ taken ++ (held ++ entry ∷ [])
accepted before posted taken held entry h =
    sym (append_assoc before posted (entry ∷ []))
    ∙ (ap (λ xs. xs ++ entry ∷ []) h ∙ append_assoc taken held (entry ∷ []))

received :
    (before posted taken : List UdpDataEntry) (entry : UdpDataEntry) (pcbs : UdpPcbs) (pcb_id : ℕ)
    (next : UdpPcbs) (channels : Channels)
    → before ++ posted ≡ taken ++ mailbox pcbs pcb_id
    → Taken pcbs pcb_id (some entry, next, channels)
    → before ++ posted ≡ (taken ++ entry ∷ []) ++ mailbox next pcb_id
unfolding Taken
received before posted taken entry pcbs pcb_id next channels h (rest, e, c) =
    h
    ∙ (ap (◌++◌ taken) e
        ∙ (sym (append_assoc taken (entry ∷ []) rest)
            ∙ ap (◌++◌ (taken ++ entry ∷ [])) (sym c.here)))

-- A block is a queue: through any calls for any blocks, what it held at first and then accepted is,
-- in this order, what `receive_from` took from it and then what it holds.
pub History-fifo :
    {pcb_id : ℕ} {pcbs now : UdpPcbs} {posted taken : List UdpDataEntry}
    → History pcb_id pcbs posted taken now
    → mailbox pcbs pcb_id ++ posted ≡ taken ++ mailbox now pcb_id
History-fifo {pcb_id} {pcbs} starts = append-nil (mailbox pcbs pcb_id)
History-fifo {pcb_id} {pcbs}
      (accepts entry channels channels' res {posted} {taken} {now} {next} hist e) =
    let c = Ensures-returned _ (accept-Changed now channels pcb_id entry) e in
    accepted _ posted taken _ entry (History-fifo hist) ∙ ap (◌++◌ taken) (sym c.here)
History-fifo {pcb_id} {pcbs}
      (receives entry receiver message channels channels' {posted} {taken} {now} {next} hist e) =
    received _ posted taken entry now pcb_id next channels' (History-fifo hist)
      (Ensures-returned _ (receive_wake-Taken now pcb_id receiver message channels) e)
History-fifo {pcb_id} {pcbs}
      (fails receiver message channels channels' {posted} {taken} {now} {next} hist e) =
    kept _ posted taken _ _ (History-fifo hist) (
      Taken-none now pcb_id next channels'
        (Ensures-returned _ (receive_wake-Taken now pcb_id receiver message channels) e))
History-fifo {pcb_id} {pcbs}
      (accepts_elsewhere other entry channels channels' res {posted} {taken} {now} {next} ne hist
        e) =
    kept _ posted taken _ _ (History-fifo hist)
      ((Ensures-returned _ (accept-Changed now channels other entry) e).elsewhere pcb_id ne)
History-fifo {pcb_id} {pcbs}
      (receives_elsewhere other entry receiver message channels channels' {posted} {taken} {now}
        {next} ne hist e) =
    kept _ posted taken _ _ (History-fifo hist) (
      Taken-elsewhere now other pcb_id entry next channels' ne
        (Ensures-returned _ (receive_wake-Taken now other receiver message channels) e))
History-fifo {pcb_id} {pcbs}
      (waits other receiver channels channels' {posted} {taken} {now} {next} hist e) =
    kept _ posted taken _ _ (History-fifo hist)
      ((Ensures-returned _ (receive_start-Same now other channels) e).at pcb_id)
History-fifo {pcb_id} {pcbs} (binds other local {posted} {taken} {now} {next} hist e) =
    kept _ posted taken _ _ (History-fifo hist)
      ((Ensures-returned _ (bind-Same now other local) e).at pcb_id)
History-fifo {pcb_id} {pcbs} (opens other {posted} {taken} {now} {next} hist e) =
    kept _ posted taken _ _ (History-fifo hist)
      ((Ensures-returned _ (open_socket-Same now) e).at pcb_id)
