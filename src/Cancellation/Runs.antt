-- ===== src/Cancellation/Runs.antt =====
-- Interleavings of `wait` and `cancel` (cancellation.py), and what holds in each of them.
use token_terminator.Common.{
  ℕ, ◌≡◌, Bool, true, false, ◌||◌, not, List, [], ◌∷◌, arith, ◌==◌, if◌then◌else◌,
}
use token_terminator.Cancellation.Token.{
  Phase, State, among, discard, new_token, start_wait, begin_cancel, signal_waiter, resolve_waiter,
  end_wait, close_loop,
}

-- A step that needs no caller: a signal of the cancelling thread, a callback of an event loop, and the return
-- of a call whose future is done.
pub data OwnStep (s : State) : State → Type 0 where
  signal : (i : ℕ) (rest : List ℕ) → s.pending ≡ i ∷ rest → OwnStep s (signal_waiter i rest s)
  callback :
      (i : ℕ) → among i s.scheduled ≡ true → s.running i ≡ true → OwnStep s (resolve_waiter i s)
  resume : (i : ℕ) → s.phase i ≡ Phase.resolved → OwnStep s (end_wait i s)

-- Any step: these, calls of `wait` and `cancel`, the cancellation of a task, and the end of an event loop
pub data Step (s : State) : State → Type 0 where
  own : {t : State} → OwnStep s t → Step s t
  enter : (i : ℕ) → s.phase i ≡ Phase.outside → Step s (start_wait i s)
  cancel : Step s (begin_cancel s)
  interrupt : (i : ℕ) → s.phase i ≡ Phase.waiting → Step s (end_wait i s)
  close : (i : ℕ) → Step s (close_loop i s)

pub data Reach : State → Type 0 where
  start : Reach new_token
  later : {s t : State} → Reach s → Step s t → Reach t

-- Who will wake a call that waits: the token while it is not cancelled; then the cancelling thread or the
-- call's event loop, unless that has closed.
abbrev pub tracked : State → ℕ → Bool
tracked s i =
    if s.cancelled
    then among i s.pending || (among i s.scheduled || not (s.running i))
    else among i s.waiters

pub record IsTracked (s : State) : Type 0 where
  pub waits : (i : ℕ) → s.phase i ≡ Phase.waiting → tracked s i ≡ true
  pub wakes : (i : ℕ) → s.phase i ≡ Phase.resolved → s.cancelled ≡ true
  pub signals : (i : ℕ) → (among i s.pending || among i s.scheduled) ≡ true → s.cancelled ≡ true

among-discard :
    (i j : ℕ) (xs : List ℕ) → among i xs ≡ true → (j == i) ≡ false → among i (discard j xs) ≡ true
among-discard i j [] h other = absurd (ground arith)
among-discard i j (x ∷ xs) h other = ground (arith, among-discard i j xs)

discard-among : (i j : ℕ) (xs : List ℕ) → among i (discard j xs) ≡ true → among i xs ≡ true
discard-among i j [] h = absurd (ground arith)
discard-among i j (x ∷ xs) h = ground (arith, discard-among i j xs)

start_wait-IsTracked : (i : ℕ) (s : State) → IsTracked s → IsTracked (start_wait i s)
unfolding start_wait
start_wait-IsTracked i s t = record {
  waits = λ j w. ground (arith, t.waits j);
  wakes = λ j w. ground (arith, t.wakes j);
  signals = λ j w. ground (arith, t.signals j);
}

begin_cancel-IsTracked : (s : State) → IsTracked s → IsTracked (begin_cancel s)
unfolding begin_cancel
begin_cancel-IsTracked s t = record {
  waits = λ j w. ground (arith, t.waits j);
  wakes = λ j w. ground (arith, t.wakes j);
  signals = λ j w. ground (arith, t.signals j);
}

signal_waiter-IsTracked :
    (i : ℕ) (rest : List ℕ) (s : State)
    → s.pending ≡ i ∷ rest
    → IsTracked s
    → IsTracked (signal_waiter i rest s)
unfolding signal_waiter
signal_waiter-IsTracked i rest s e t = record {
  waits = λ j w. ground (arith, t.waits j);
  wakes = λ j w. ground (arith, t.wakes j);
  signals = λ j w. ground (arith, t.signals j);
}

resolve_waiter-IsTracked :
    (i : ℕ) (s : State) → among i s.scheduled ≡ true → IsTracked s → IsTracked (resolve_waiter i s)
unfolding resolve_waiter
resolve_waiter-IsTracked i s found t = record {
  waits = λ j w. ground (arith, t.waits j, among-discard j i s.scheduled);
  wakes = λ j w. ground (arith, t.wakes j, t.signals i);
  signals = λ j w. ground (arith, t.signals j, discard-among j i s.scheduled);
}

end_wait-IsTracked : (i : ℕ) (s : State) → IsTracked s → IsTracked (end_wait i s)
unfolding end_wait
end_wait-IsTracked i s t = record {
  waits = λ j w. ground (arith, t.waits j, among-discard j i s.waiters);
  wakes = λ j w. ground (arith, t.wakes j);
  signals = λ j w. ground (arith, t.signals j);
}

close_loop-IsTracked : (i : ℕ) (s : State) → IsTracked s → IsTracked (close_loop i s)
unfolding close_loop
close_loop-IsTracked i s t = record {
  waits = λ j w. ground (arith, t.waits j);
  wakes = λ j w. ground (arith, t.wakes j);
  signals = λ j w. ground (arith, t.signals j);
}

OwnStep-IsTracked : {s t : State} → OwnStep s t → IsTracked s → IsTracked t
OwnStep-IsTracked {s} (signal i rest e) t = signal_waiter-IsTracked i rest s e t
OwnStep-IsTracked {s} (callback i found runs) t = resolve_waiter-IsTracked i s found t
OwnStep-IsTracked {s} (resume i e) t = end_wait-IsTracked i s t

pub Step-IsTracked : {s t : State} → Step s t → IsTracked s → IsTracked t
Step-IsTracked {s} (enter i e) t = start_wait-IsTracked i s t
Step-IsTracked {s} cancel t = begin_cancel-IsTracked s t
Step-IsTracked (own st) t = OwnStep-IsTracked st t
Step-IsTracked {s} (interrupt i e) t = end_wait-IsTracked i s t
Step-IsTracked {s} (close i) t = close_loop-IsTracked i s t

-- No wake-up is lost, in any interleaving of waits, cancellations, event loops and their closing: a call that
-- waits is registered with the token while it is not cancelled, and afterwards is still to be signalled,
-- or has a callback in its event loop, or its event loop has closed. And none is spurious: a future is
-- done, and an entry is signalled or has a callback, only once the token is cancelled.
pub Reach-IsTracked : {s : State} → Reach s → IsTracked s
Reach-IsTracked start = record {
  waits = λ i w. absurd (ground arith);
  wakes = λ i w. absurd (ground arith);
  signals = λ i w. absurd (ground arith);
}
Reach-IsTracked (later r st) = Step-IsTracked st (Reach-IsTracked r)
