-- ===== src/Common/Actions.antt =====
-- Code that changes a state and may raise. What was written before an exception stays written, so
-- the state comes back beside the exception too.
use mathlib.Core.Path.{◌≡◌, refl}
use mathlib.Core.Logic.{◌≢◌, ◌⊎◌, inl, inr}
use native.Mathlib.Omega.{arith}
use token_terminator.Common.Raises.{Error, Result, ok, raise}

abbrev pub Action : Type 0 → Type 0 → Type 0
Action S A = S → Result A × S

module _ {S A : Type 0} where
  abbrev pub pure : A → Action S A
  pure a s = (ok a, s)

  abbrev pub throw : Error → Action S A
  throw e s = (raise e, s)

  abbrev pub gets : (S → A) → Action S A
  gets f s = (ok (f s), s)

  -- try: m; except Exception: handler
  abbrev handled : (Error → Action S A) → Result A × S → Result A × S
  handled handler (ok a, s) = (ok a, s)
  handled handler (raise e, s) = handler e s

  abbrev pub attempt : Action S A → (Error → Action S A) → Action S A
  attempt m handler s = handled handler (m s)

abbrev pub modify : {S : Type 0} → (S → S) → Action S (Unit {0})
modify f s = (ok tt, f s)

module _ {S A B : Type 0} where
  abbrev pub continue : (A → Action S B) → Result A × S → Result B × S
  continue f (ok a, s) = f a s
  continue f (raise e, s) = (raise e, s)

  infixl 5 ◌>>=◌
  abbrev pub ◌>>=◌ : Action S A → (A → Action S B) → Action S B
  ◌>>=◌ m f s = continue f (m s)

  -- A chain that returned has returned at its first step.
  pub continue-ok :
      (r : Result A × S) (f : A → Action S B) (b : B) (s : S)
      → continue f r ≡ (ok b, s)
      → (a : A) × (r.0 ≡ ok a) × (f a r.1 ≡ (ok b, s))
  continue-ok (ok a, t) f b s h = (a, refl, h)
  continue-ok (raise e, t) f b s h = absurd (ground arith)

  -- The same for the value alone
  pub continue-value :
      (r : Result A × S) (f : A → Action S B) (b : B)
      → (continue f r).0 ≡ ok b
      → (a : A) × (r.0 ≡ ok a) × ((f a r.1).0 ≡ ok b)
  continue-value (ok a, t) f b h = (a, refl, h)
  continue-value (raise e, t) f b h = absurd (ground arith)

  -- A chain that raised has raised at its first step or after it.
  pub continue-raise :
      (r : Result A × S) (f : A → Action S B) (e : Error)
      → (continue f r).0 ≡ raise e
      → (r.0 ≡ raise e) ⊎ ((a : A) × (r.0 ≡ ok a) × ((f a r.1).0 ≡ raise e))
  continue-raise (ok a, t) f e h = inr (a, refl, h)
  continue-raise (raise x, t) f e h = inl (ground arith)

  -- What the second step returns from every result of the first, the chain returns.
  pub continue-returns :
      (P : B → Type 0) (r : Result A × S) (f : A → Action S B) (a : A)
      → r.0 ≡ ok a
      → ((b : B) × ((f a r.1).0 ≡ ok b) × P b)
      → (b : B) × ((continue f r).0 ≡ ok b) × P b
  continue-returns P (ok x, t) f a h (b, returned, p) =
      let same : x ≡ a = ground arith in (b, rw same returned, p)
  continue-returns P (raise e, t) f a h next = absurd (ground arith)

infixl 5 ◌>>◌
abbrev pub ◌>>◌ : {S B : Type 0} → Action S (Unit {0}) → Action S B → Action S B
m >> k = m >>= λ _. k

-- What holds of every result of an action, and of a handler that always returns, holds of the `try`.
pub attempt_returns :
    {S A : Type 0} (P : A → Type 0) (m : Action S A) (handler : Error → Action S A) (s : S)
    → ((a : A) (t : S) → m s ≡ (ok a, t) → P a)
    → ((e : Error) (t : S) → (a : A) × ((handler e t).0 ≡ ok a) × P a)
    → (a : A) × ((attempt m handler s).0 ≡ ok a) × P a
attempt_returns {S} {A} P m handler s returned caught = go (m s) returned
  where
    go :
        (r : Result A × S)
        → ((a : A) (t : S) → r ≡ (ok a, t) → P a)
        → (a : A) × ((handled handler r).0 ≡ ok a) × P a
    go (ok a, t) h = (a, refl, h a t refl)
    go (raise e, t) h = caught e t

-- A result that the handler never gives comes from the action itself.
pub attempt-ok :
    {S A : Type 0} (m : Action S A) (handler : Error → Action S A) (a : A) (s t : S)
    → ((e : Error) (u : S) → handler e u ≢ (ok a, t))
    → attempt m handler s ≡ (ok a, t)
    → m s ≡ (ok a, t)
attempt-ok {S} {A} m handler a s t never h = go (m s) h
  where
    go : (r : Result A × S) → handled handler r ≡ (ok a, t) → r ≡ (ok a, t)
    go (ok b, u) h = h
    go (raise e, u) h = absurd (never e u h)
