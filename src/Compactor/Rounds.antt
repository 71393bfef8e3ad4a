-- ===== src/Compactor/Rounds.antt =====
-- The loop over old turns ends: every round leaves fewer messages.
use token_terminator.Common.{
  ℕ, zero, suc, ◌≤◌, ◌<◌, ◌≡◌, some, arith, leb, Result, ok, raise, bind-ok, Bool-cases,
  Result-cases, inl, inr, ap, String,
}
use token_terminator.Json.{Value, Items, nil, item}
use token_terminator.Compactor.Turns.{size, is_user}
use token_terminator.Compactor.Collapse.{
  Collapsing, no_preview, turn_body, after_turn, preview_turn, collapse_turn, collapse_step,
  collapse_loop,
}
use token_terminator.Compactor.Tail.{Items-cases}

after_turn-size : (xs : Items) → size (after_turn xs) ≤ size xs
unfolding after_turn size
after_turn-size nil = omega arith
after_turn-size (item x xs) = ground (arith, after_turn-size xs)

module _ (shown : Value → String) where
  collapse_step-size :
      (m : Value) (ms : Items) (c d : Collapsing)
      → collapse_step shown m ms c ≡ ok d
      → size d.rest ≤ size ms
  unfolding collapse_step collapse_turn
  collapse_step-size m ms c d h = elim (Bool-cases (is_user m)) [
    | inl turn ↦
        let (p, previewed, made) =
          bind-ok (preview_turn shown (item m (turn_body ms)) no_preview) _ d (rw turn at h) in
        let left : d.rest ≡ after_turn ms = ground arith in rw left (after_turn-size ms)
    | inr plain ↦ let left : d.rest ≡ ms = ground arith in rw left omega arith
  ]

  -- The loop over old turns always ends: with fuel above the number of messages that are left it returns
  -- the collapsed turns or the exception of a round, at any cutoff.
  pub collapse_loop_total :
      (fuel cutoff : ℕ) (c : Collapsing)
      → size c.rest < fuel
      → (r : Result Collapsing) × (collapse_loop shown fuel cutoff c ≡ some r)
  unfolding collapse_loop size
  collapse_loop_total zero cutoff c enough = absurd (omega arith)
  collapse_loop_total (suc fuel) cutoff c enough = elim (Bool-cases (leb cutoff c.index)) [
    | inl done ↦ (ok c, ground arith)
    | inr more ↦ elim (Items-cases c.rest) [
      | inl empty ↦ (ok c, ground arith)
      | inr (m, ms, found) ↦ elim (Result-cases (collapse_step shown m ms c)) [
        | inr (e, failed) ↦ (raise e, ground arith)
        | inl (d, stepped) ↦
            let (r, looped) =
              collapse_loop_total fuel cutoff d
                (ground (arith, collapse_step-size m ms c d stepped, ap size found)) in
            (r, ground arith)
      ]
    ]
  ]
