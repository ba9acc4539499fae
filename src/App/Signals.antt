-- ===== src/App/Signals.antt =====
-- The signal loop of src/main.rs and what it calls in src/app.rs, and the thread that sends TCP
-- segments again.
use rust_user_net.Base.{
  ℕ, List, [], ◌∷◌, Bool, true, false, Run, done, ◌>>=◌, ◌>>◌, check, ◌==◌, if◌then◌else◌,
}
use rust_user_net.Device.Types.{Env}
use rust_user_net.Device.Dispatch
use rust_user_net.Udp.Pcbs as UdpBlocks
use rust_user_net.Tcp.Pcbs as TcpBlocks
use rust_user_net.Tcp.Retransmit.{retransmit}
use rust_user_net.Protocols.{handle_data}
use rust_user_net.App.{NetApp, on_ethernet}

abbrev pub sighup : ℕ
sighup = 1

abbrev pub sigusr1 : ℕ
sigusr1 = 10

-- `NetApp::handle_protocol`, under all four locks.
unfoldable pub handle_protocol : Env → (ℕ → ℕ) → NetApp → Run NetApp
handle_protocol env random app = do
  (protocols, devices, shared) ←
      handle_data env random app.protocols.entries.head app.devices.entries.head app.shared
  done (record {
    devices = record { entries = record { head = devices } };
    protocols = record { entries = record { head = protocols } };
    shared = shared;
  })

-- `NetApp::handle_irq`, under the locks of the devices and the protocols.
unfoldable pub handle_irq : Env → ℕ → NetApp → Run NetApp
handle_irq env irq app = do
  (devices, protocols) ← Dispatch.handle_irq env app.devices irq app.protocols
  done (record app { devices = devices; protocols = protocols })

-- `NetApp::close_sockets`.
unfoldable pub close_sockets : NetApp → Run NetApp
close_sockets app = do
  channels ← UdpBlocks.close_sockets app.shared.udp_pcbs app.shared.channels
  let (tcp_pcbs, channels') = TcpBlocks.close_sockets app.shared.tcp_pcbs channels
  done (record app { shared = record (app.shared) { tcp_pcbs = tcp_pcbs; channels = channels' } })

-- A signal, with the numbers that its handler may draw and the surroundings at its time.
pub record Signal : Type 0 where
  pub env : Env
  pub random : ℕ → ℕ
  pub number : ℕ

-- The body of the loop over the signals; `is_term` is `TERM_SIGNALS.contains` of signal_hook. With
-- `false` the loop ends.
unfoldable pub on_signal : (ℕ → Bool) → Signal → NetApp → Run (Bool × NetApp)
on_signal is_term signal app =
    if signal.number == sighup
    then done (true, app)
    else if signal.number == sigusr1
    then (do app' ← handle_protocol signal.env signal.random app; done (true, app'))
    else if is_term signal.number
    then done (false, app)
    else (do app' ← handle_irq signal.env signal.number app; done (true, app'))

-- The loop, over the signals that arrive, and whether it has ended.
unfoldable pub on_signals : (ℕ → Bool) → List Signal → NetApp → Run (Bool × NetApp)
unfolding on_signal
on_signals is_term [] app = done (true, app)
on_signals is_term (signal ∷ signals) app = do
  (proceed, app') ← on_signal is_term signal app
  elim proceed [ true ↦ on_signals is_term signals app' | false ↦ done (false, app') ]

-- Behind the loop: the two threads are told, which fails for one that has ended, and the sockets are
-- closed.
unfoldable pub shutdown : Bool → Bool → NetApp → Run NetApp
shutdown app_alive tcp_alive app = do check app_alive; check tcp_alive; close_sockets app

-- A round of `tcp_transmit_thread`: `told` is whether a message to end has come.
unfoldable pub transmit_round : Env → Bool → NetApp → Run (Bool × NetApp)
transmit_round env told app = if told then done (false, app) else (do
  (_, app') ← on_ethernet (λ w. retransmit env w >>= λ w'. done (tt {0}, w')) app
  done (true, app'))
