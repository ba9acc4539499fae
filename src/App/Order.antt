-- ===== src/App/Order.antt =====
-- The signal loop of src/main.rs over the signals in their order, and what a signal leaves of the
-- queues.
use rust_user_net.Base.{
  ℕ, ◌≡◌, ◌∙◌, ◌++◌, refl, List, [], ◌∷◌, Bool, true, false, Run, done, ◌>>=◌, ◌==◌, bind_assoc,
  bind_cong,
}
use rust_user_net.App.{NetApp}
use rust_user_net.App.Signals.{Signal, on_signal, on_signals, sighup, sigusr1}

-- The loop goes on with the signals that are left, if it has not ended.
abbrev pub continue_with : (ℕ → Bool) → List Signal → Bool × NetApp → Run (Bool × NetApp)
continue_with is_term signals r = elim r.0 [
  | true ↦ on_signals is_term signals r.1
  | false ↦ done (false, r.1)
]

continue_with-bind :
    (is_term : ℕ → Bool) (xs ys : List Signal) (r : Bool × NetApp)
    → ((app : NetApp)
        → on_signals is_term (xs ++ ys) app
          ≡ on_signals is_term xs app >>= continue_with is_term ys)
    → continue_with is_term (xs ++ ys) r ≡ continue_with is_term xs r >>= continue_with is_term ys
continue_with-bind is_term xs ys (true, app) h = h app
continue_with-bind is_term xs ys (false, app) h = refl

on_signals-append :
    (is_term : ℕ → Bool) (xs ys : List Signal) (app : NetApp)
    → on_signals is_term (xs ++ ys) app ≡ on_signals is_term xs app >>= continue_with is_term ys
unfolding on_signals
on_signals-append is_term [] ys app = refl
on_signals-append is_term (x ∷ xs) ys app =
    bind_assoc (on_signal is_term x app) (continue_with is_term xs) (continue_with is_term ys)
      (continue_with is_term (xs ++ ys))
      (λ r. continue_with-bind is_term xs ys r (on_signals-append is_term xs ys))

terminates :
    (is_term : ℕ → Bool) (t : Signal) (ys : List Signal)
    → is_term t.number ≡ true
    → (t.number == sighup) ≡ false
    → (t.number == sigusr1) ≡ false
    → (r : Bool × NetApp) → continue_with is_term (t ∷ ys) r ≡ done (false, r.1)
unfolding on_signals on_signal
terminates is_term t ys h hup usr (true, app) = rw (hup, usr, h) refl
terminates is_term t ys h hup usr (false, app) = refl

-- A terminating signal, which is neither SIGHUP nor SIGUSR1, ends the loop: the program is left as
-- the signals before it left it, and no signal behind it is handled.
pub on_signals-terminated :
    (is_term : ℕ → Bool) (t : Signal) (xs ys : List Signal) (app : NetApp)
    → is_term t.number ≡ true
    → (t.number == sighup) ≡ false
    → (t.number == sigusr1) ≡ false
    → on_signals is_term (xs ++ t ∷ ys) app ≡ on_signals is_term xs app >>= λ r. done (false, r.1)
on_signals-terminated is_term t xs ys app h hup usr =
    on_signals-append is_term xs (t ∷ ys) app
    ∙ bind_cong (on_signals is_term xs app) _ _ (terminates is_term t ys h hup usr)
