-- ===== src/Compactor/Reduction.antt =====
-- What `compact` promises of every request: a strict reduction, or the request as it was.
use Prim.Native.Char.{Char}
use token_terminator.Common.{
  ℕ, ◌+◌, ◌<◌, String, count, ◌≡◌, refl, Bool, true, false, some, arith, leb, leb→lt, str_eq,
  eq_iff, eq_refl, Result, ok, Bool-cases, Result-cases, Option-cases, inl, inr, ◌⊎◌, ap, ◌∙◌,
  subst,
}
use token_terminator.Common.Actions.{attempt_returns, continue-ok, pure}
use token_terminator.Json.{Number, whole, Value, number, object, Fields, end, field, has, set}
use token_terminator.Vault.Tables.{Vault}
use token_terminator.Compactor.Turns.{Mode, Compactor, mode_of}
use token_terminator.Compactor.Vaulting.{Session}
use token_terminator.Compactor.Request.{
  CompactionResult, Outcome, without, popped, put_counts, pop_counts, items_key, compact_mode,
  compact_as, untouched, working_of, original_of, accept, compact_object, compact_request,
}

without_missing : (key : String) (fs : Fields) → has key fs ≡ false → without key fs ≡ fs
unfolding without has
without_missing key end h = refl
without_missing key (field k v rest) h = ground (arith, without_missing key rest)

without-set : (key : String) (v : Value) (fs : Fields) → without key (set key v fs) ≡ without key fs
unfolding without set
without-set key v end = ground (arith, eq_refl key)
without-set key v (field k w rest) = ground (arith, without-set key v rest)

without-set_other :
    (key other : String) (v : Value) (fs : Fields)
    → str_eq other key ≡ false
    → without key (set other v fs) ≡ set other v (without key fs)
unfolding without set
without-set_other key other v end h = ground arith
without-set_other key other v (field k w rest) h =
    ground
      (arith, eq_iff k key, eq_iff k other, eq_iff other key, without-set_other key other v rest h)

without-without : (a b : String) (fs : Fields) → without a (without b fs) ≡ without b (without a fs)
unfolding without
without-without a b end = refl
without-without a b (field k v rest) = ground (arith, without-without a b rest)

-- The counts leave no trace.
pub pop_counts-put_counts :
    (vaulted collapsed : ℕ) (fs : Fields)
    → pop_counts (put_counts vaulted collapsed fs) ≡ pop_counts fs
unfolding pop_counts put_counts
pop_counts-put_counts vaulted collapsed fs =
    let v : Value = number (whole vaulted) in
    let c : Value = number (whole collapsed) in
    without-without "_tt_collapsed" "_tt_vaulted" (set "_tt_collapsed" c (set "_tt_vaulted" v fs))
    ∙ (ap (without "_tt_vaulted") (without-set "_tt_collapsed" c (set "_tt_vaulted" v fs))
        ∙ (without-without "_tt_vaulted" "_tt_collapsed" (set "_tt_vaulted" v fs)
            ∙ ap (without "_tt_collapsed") (without-set "_tt_vaulted" v fs)))

pub pop_counts-set :
    (mode : Mode) (v : Value) (fs : Fields)
    → pop_counts (set (items_key mode) v fs) ≡ set (items_key mode) v (pop_counts fs)
unfolding pop_counts
pop_counts-set Mode.messages v fs =
    ap (without "_tt_collapsed") (without-set_other "_tt_vaulted" "messages" v fs refl)
    ∙ without-set_other "_tt_collapsed" "messages" v (without "_tt_vaulted" fs) refl
pop_counts-set Mode.responses v fs =
    ap (without "_tt_collapsed") (without-set_other "_tt_vaulted" "input" v fs refl)
    ∙ without-set_other "_tt_collapsed" "input" v (without "_tt_vaulted" fs) refl

-- A request that carries none of the compactor's own counts
pub record IsPlain (fs : Fields) : Type 0 where
  pub vaulted : has "_tt_vaulted" fs ≡ false
  pub collapsed : has "_tt_collapsed" fs ≡ false

pub IsPlain-pop_counts : (fs : Fields) → IsPlain fs → pop_counts fs ≡ fs
unfolding pop_counts
IsPlain-pop_counts fs plain =
    ap (without "_tt_collapsed") (without_missing "_tt_vaulted" fs plain.vaulted)
    ∙ without_missing "_tt_collapsed" fs plain.collapsed

pub original_of-IsPlain :
    (fs : Fields) (outcome : Outcome) → IsPlain fs → original_of fs outcome ≡ fs
original_of-IsPlain fs Outcome.same plain = IsPlain-pop_counts fs plain
original_of-IsPlain fs (Outcome.changed working) plain = refl

module _ (dumps compact : Value → String) (digest : String → String) (safe : Char → Bool)
    (equal : Value → Value → Bool) (shown : Value → String) (int_of : Value → Result Number) where
  -- The two ends of an acceptance: the original, or the smaller request.
  pub data Accepted (fs : Fields) (raw : ℕ) (outcome : Outcome) (r : CompactionResult)
      : Type 0 where
    refused :
        (failed : Bool)
        → r ≡ untouched (object (original_of fs outcome)) raw failed
        → Accepted fs raw outcome r
    smaller :
        r.request ≡ object (pop_counts (working_of fs outcome))
        → r.raw_chars ≡ raw
        → r.compacted_chars ≡ count (dumps r.request)
        → r.compacted_chars < raw
        → r.compacted_chars + r.saved_chars ≡ raw
        → r.failed_open ≡ false
        → Accepted fs raw outcome r

  pub accept-Accepted :
      (fs : Fields) (raw : ℕ) (outcome : Outcome)
      → Accepted fs raw outcome (accept dumps compact digest safe equal shown int_of fs raw outcome)
  unfolding accept
  accept-Accepted fs raw outcome =
      let working = working_of fs outcome in
      let request = object (pop_counts working) in
      let vaulted = int_of (popped "_tt_vaulted" working) in
      let collapsed = int_of (popped "_tt_collapsed" working) in
      elim (Bool-cases (leb raw (count (dumps request)))) [
        | inl larger ↦ refused false (rw larger refl)
        | inr less ↦ elim (Result-cases vaulted) [
          | inr (e, bad) ↦ refused true (rw (less, bad) refl)
          | inl (n, counted) ↦ elim (Result-cases collapsed) [
            | inr (e, bad) ↦ refused true (rw (less, counted, bad) refl)
            | inl (m, also) ↦
                let shorter : count (dumps request) < raw = leb→lt _ _ less in
                rw (less, counted, also)
                  (smaller refl refl refl shorter (omega (arith, shorter)) refl)
          ]
        ]
      ]

  -- What holds of the request as it was and of every acceptance holds of the result.
  pub compact_request-returns :
      (P : CompactionResult → Type 0) (cp : Compactor) (c : Session) (fs : Fields) (s : Vault)
      → ((failed : Bool) → P (untouched (object fs) (count (dumps (object fs))) failed))
      → ((mode : Mode) (outcome : Outcome)
          → mode_of fs ≡ some mode
          → (compact_mode dumps compact digest safe equal shown int_of cp c mode fs s).0
            ≡ ok outcome
          → P (
              accept dumps compact digest safe equal shown int_of fs
                (count (dumps (object fs)))
                outcome))
      → (r : CompactionResult) × ((compact_request dumps compact digest safe equal shown int_of cp c
            (object fs)
            s).0
          ≡ ok r)
        × P r
  unfolding compact_request compact_object compact_as
  compact_request-returns P cp c fs s whole_again accepted =
      attempt_returns P (compact_object dumps compact digest safe equal shown int_of cp c fs)
        (λ e. pure (untouched (object fs) (count (dumps (object fs))) true)) s
        (λ r t h. elim (Option-cases (mode_of fs)) [
          | inl unknown ↦
              let same : untouched (object fs) (count (dumps (object fs))) false ≡ r =
                ground arith in
              subst P same (whole_again false)
          | inr (mode, known) ↦
              let (outcome, made, h1) =
                continue-ok
                  (compact_mode dumps compact digest safe equal shown int_of cp c mode fs s) _ r t
                  (rw known at h) in
              let same : accept dumps compact digest safe equal shown int_of fs
                    (count (dumps (object fs))) outcome
                  ≡ r =
                ground arith in
              subst P same (accepted mode outcome known made)
        ])
        (λ e t. (untouched (object fs) (count (dumps (object fs))) true, refl, whole_again true))

  -- Either nothing has changed, or the request is smaller, by what it says it has saved.
  abbrev pub IsReduction : Value → CompactionResult → Type 0
  IsReduction request r =
      ((r.request ≡ request) × (r.compacted_chars ≡ r.raw_chars) × (r.saved_chars ≡ 0))
      ⊎ ((r.raw_chars ≡ count (dumps request))
          × (r.compacted_chars ≡ count (dumps r.request))
          × (r.compacted_chars < r.raw_chars)
          × (r.compacted_chars + r.saved_chars ≡ r.raw_chars)
          × (r.failed_open ≡ false))

  accept-IsReduction :
      (fs : Fields) (outcome : Outcome)
      → IsPlain fs
      → IsReduction (object fs) (
          accept dumps compact digest safe equal shown int_of fs
            (count (dumps (object fs)))
            outcome)
  accept-IsReduction fs outcome plain =
      let raw = count (dumps (object fs)) in
      elim (accept-Accepted fs raw outcome) [
        | refused failed e ↦ rw (e, original_of-IsPlain fs outcome plain) (inl (refl, refl, refl))
        | smaller request chars measured less sum fine ↦
            inr (chars, measured, rw chars less, rw chars sum, fine)
      ]

  -- On every request that is an object, whatever the vault holds and whatever fails, compact returns a
  -- result: the request itself with nothing saved, or a request whose serialised text is strictly shorter
  -- than the original's, by exactly the saved characters, and which is not marked as a failure. The request must not bring the keys of the
  -- compactor's own counts.
  pub compact_request-IsReduction :
      (cp : Compactor) (c : Session) (fs : Fields) (s : Vault)
      → IsPlain fs
      → (r : CompactionResult) × ((compact_request dumps compact digest safe equal shown int_of cp c
            (object fs)
            s).0
          ≡ ok r)
        × IsReduction (object fs) r
  compact_request-IsReduction cp c fs s plain =
      compact_request-returns (IsReduction (object fs)) cp c fs s (λ failed. inl (refl, refl, refl))
        (λ mode outcome known made. accept-IsReduction fs outcome plain)
