-- ===== src/Examples/Cancellation.antt =====
-- Tests of the cancellation signal: two calls wait, and the token is cancelled.
use token_terminator.Common.{◌≡◌, refl, true, [], ◌∷◌}
use token_terminator.Cancellation.Token.{
  Phase, State, new_token, start_wait, begin_cancel, signal_waiter,
}
use token_terminator.Cancellation.Runs.{
  signal, own, enter, cancel, Reach, start, later, IsTracked, Reach-IsTracked,
}
use token_terminator.Cancellation.Wakes.{Wakes, cancelled-Wakes}

abbrev cancelled_state : State
cancelled_state = signal_waiter 1 (0 ∷ []) (begin_cancel (start_wait 1 (start_wait 0 new_token)))

cancelled-Reach : Reach cancelled_state
unfolding start_wait begin_cancel
cancelled-Reach =
    later (later (later (later start (enter 0 refl)) (enter 1 refl)) cancel)
      (own (signal 1 (0 ∷ []) refl))

cancelled_test :
    (cancelled_state.cancelled ≡ true)
    × (cancelled_state.pending ≡ 0 ∷ [])
    × (cancelled_state.scheduled ≡ 1 ∷ [])
unfolding start_wait begin_cancel signal_waiter
cancelled_test = (refl, refl, refl)

Reach-IsTracked_example : IsTracked cancelled_state
Reach-IsTracked_example = Reach-IsTracked cancelled-Reach

cancelled-Wakes_example : (t : State) × Wakes cancelled_state t × (t.phase 0 ≡ Phase.returned)
unfolding start_wait begin_cancel signal_waiter
cancelled-Wakes_example = cancelled-Wakes cancelled-Reach 0 refl refl refl
