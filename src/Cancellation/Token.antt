-- ===== src/Cancellation/Token.antt =====
-- `CancellationToken` (cancellation.py) among the calls of `wait` and `cancel`: what each does under the
-- lock is one step, and so is what an event loop runs.
use token_terminator.Common.{
  ℕ, Bool, true, false, List, [], ◌∷◌, ◌==◌, any, filter, not, if◌then◌else◌, Result, raise_if,
  cancelled_error,
}

-- A call of `wait`: before its lock, in `await waiter`, with its future done, and returned.
pub data Phase : Type 0 where
  outside waiting resolved returned : Phase

abbrev pub update {ℓ} : {A : Type ℓ} → (ℕ → A) → ℕ → A → ℕ → A
update f i a j = if i == j then a else f j

-- The token, with `_waiters` as a list of calls; the entries that the cancelling thread has yet to signal; the
-- callbacks in the event loops; and for each call its phase and whether its event loop runs.
pub record State : Type 0 where
  pub cancelled : Bool
  pub waiters : List ℕ
  pub pending : List ℕ
  pub scheduled : List ℕ
  pub phase : ℕ → Phase
  pub running : ℕ → Bool

abbrev pub among : ℕ → List ℕ → Bool
among i = any (λ j. j == i)

abbrev pub discard : ℕ → List ℕ → List ℕ
discard i = filter (λ j. not (j == i))

-- `__init__`
abbrev pub new_token : State
new_token = record {
  cancelled = false;
  waiters = [];
  pending = [];
  scheduled = [];
  phase = λ i. Phase.outside;
  running = λ i. true;
}

-- The first lock of `wait`
unfoldable pub start_wait : ℕ → State → State
start_wait i s =
    if s.cancelled
    then record s { phase = update s.phase i Phase.returned }
    else record s { waiters = i ∷ s.waiters; phase = update s.phase i Phase.waiting }

-- The lock of `cancel`
unfoldable pub begin_cancel : State → State
begin_cancel s =
    if s.cancelled then s else record s { cancelled = true; waiters = []; pending = s.waiters }

-- A round of the loop of `cancel`; a closed event loop raises, and is passed over.
unfoldable pub signal_waiter : ℕ → List ℕ → State → State
signal_waiter i rest s =
    if s.running i
    then record s { pending = rest; scheduled = i ∷ s.scheduled }
    else record s { pending = rest }

abbrev pub resolve : Phase → Phase
resolve Phase.outside = Phase.outside
resolve Phase.waiting = Phase.resolved
resolve Phase.resolved = Phase.resolved
resolve Phase.returned = Phase.returned

-- `_resolve_waiter`, which the event loop calls
unfoldable pub resolve_waiter : ℕ → State → State
resolve_waiter i s = record s {
  scheduled = discard i s.scheduled;
  phase = update s.phase i (resolve (s.phase i));
}

-- The `finally` of `wait`
unfoldable pub end_wait : ℕ → State → State
end_wait i s = record s { waiters = discard i s.waiters; phase = update s.phase i Phase.returned }

-- The event loop of a call closes.
unfoldable pub close_loop : ℕ → State → State
close_loop i s = record s { running = update s.running i false }

-- `raise_if_cancelled`
unfoldable pub raise_if_cancelled : State → Result (Unit {0})
raise_if_cancelled s = raise_if s.cancelled cancelled_error
