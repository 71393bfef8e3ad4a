-- ===== src/Cancellation/Wakes.antt =====
-- After a cancellation (cancellation.py): the steps that the cancelling thread and the event loops still
-- make wake every call that waits.
use token_terminator.Common.{ℕ, ◌≡◌, refl, true, ◌||◌, List, [], ◌∷◌, arith}
use token_terminator.Cancellation.Token.{
  Phase, State, among, signal_waiter, resolve_waiter, end_wait,
}
use token_terminator.Cancellation.Runs.{OwnStep, signal, callback, resume, Reach, Reach-IsTracked}

-- A finite run of such steps
pub data Wakes : State → State → Type 0 where
  here : (s : State) → Wakes s s
  next : {s u t : State} → OwnStep s u → Wakes u t → Wakes s t

-- A call that waits on a running event loop, with its callback scheduled, returns.
scheduled-Wakes :
    (i : ℕ) (s : State)
    → s.phase i ≡ Phase.waiting
    → s.running i ≡ true
    → among i s.scheduled ≡ true
    → (t : State) × Wakes s t × (t.phase i ≡ Phase.returned)
unfolding resolve_waiter end_wait
scheduled-Wakes i s waits runs found =
    let done : (resolve_waiter i s).phase i ≡ Phase.resolved = ground arith in
    (
      end_wait i (resolve_waiter i s),
      next (callback i found runs) (next (resume i done) (here (end_wait i (resolve_waiter i s)))),
      ground arith,
    )

pending-Wakes :
    (i : ℕ) (pending : List ℕ) (s : State)
    → s.pending ≡ pending
    → s.phase i ≡ Phase.waiting
    → s.running i ≡ true
    → (among i pending || among i s.scheduled) ≡ true
    → (t : State) × Wakes s t × (t.phase i ≡ Phase.returned)
unfolding signal_waiter
pending-Wakes i [] s e waits runs found = scheduled-Wakes i s waits runs (ground arith)
pending-Wakes i (j ∷ rest) s e waits runs found =
    let (t, wakes, returned) =
      pending-Wakes i rest (signal_waiter j rest s) (ground arith) (ground arith) (ground arith)
        (ground arith) in
    (t, next (signal j rest e) wakes, returned)

-- Every call that waits when the token is cancelled can return: in each reachable state with the token cancelled
-- and the call's event loop running, finitely many steps of the cancelling thread, the event loops and
-- the call itself, with no further call of wait or cancel, lead to a state in which it has returned.
pub cancelled-Wakes :
    {s : State}
    → Reach s
    → (i : ℕ) → s.cancelled ≡ true
    → s.phase i ≡ Phase.waiting
    → s.running i ≡ true
    → (t : State) × Wakes s t × (t.phase i ≡ Phase.returned)
cancelled-Wakes {s} r i cancelled waits runs =
    pending-Wakes i s.pending s refl waits runs (ground (arith, (Reach-IsTracked r).waits i waits))
