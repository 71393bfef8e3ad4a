-- ===== src/Accounting/Sums.antt =====
-- That the token table stays balanced, and the sums with it; and that no request is counted twice.
use token_terminator.Common.{
  ℕ, ◌+◌, ◌*◌, ◌≤◌, String, ◌≡◌, refl, Bool, true, false, ◌||◌, List, [], ◌∷◌, any, arith, sum_by,
  filter, All, ltb, ltb→le, ltb→lt, ◌<◌, ◌&&◌, ◌==◌, none, some, Option-cases, subst, sym, eq_iff,
  eq_refl, Bool-cases, inl, inr,
}
use token_terminator.Vault.Savings.{Metric, measured_sum}
use token_terminator.Accounting.{
  TokenMeasurement, TokenRow, same_key, put_row, measured_row, record_tokens, round_quarter,
  is_fallback, fallback_chars, summary,
}

abbrev pub IsBalanced : TokenRow → Type 0
IsBalanced r = r.final_tokens + r.saved_tokens ≡ r.raw_tokens

-- No two rows are of one request.
abbrev pub IsSingle : List TokenRow → Type 0
IsSingle [] = Unit
IsSingle (r ∷ rs) = (any (same_key r.session_id r.request_id) rs ≡ false) × IsSingle rs

pub record IsTable (rows : List TokenRow) : Type 0 where
  pub balanced : All IsBalanced rows
  pub single : IsSingle rows

put_row-IsBalanced :
    (new : TokenRow) (rows : List TokenRow)
    → IsBalanced new
    → All IsBalanced rows
    → All IsBalanced (put_row new rows)
unfolding put_row
put_row-IsBalanced new [] b h = (b, tt)
put_row-IsBalanced new (r ∷ rs) b h = elim (Bool-cases (same_key new.session_id new.request_id r)) [
  | inl here ↦ rw here (b, h.1)
  | inr later ↦ rw later (h.0, put_row-IsBalanced new rs b h.1)
]

any-put_row :
    (new : TokenRow) (rows : List TokenRow) (s q : String)
    → any (same_key s q) (put_row new rows) ≡ (same_key s q new || any (same_key s q) rows)
unfolding put_row same_key
any-put_row new [] s q = ground arith
any-put_row new (r ∷ rs) s q = ground (
  arith,
  any-put_row new rs s q,
  eq_iff r.session_id new.session_id,
  eq_iff r.request_id new.request_id,
)

same_key_iff :
    (s q : String) (r : TokenRow) → same_key s q r ≡ true → (r.session_id ≡ s) × (r.request_id ≡ q)
unfolding same_key
same_key_iff s q r h = ground (arith, eq_iff r.session_id s, eq_iff r.request_id q)

put_row-IsSingle :
    (new : TokenRow) (rows : List TokenRow) → IsSingle rows → IsSingle (put_row new rows)
unfolding put_row same_key
put_row-IsSingle new [] h = (refl, tt)
put_row-IsSingle new (r ∷ rs) h = elim (Bool-cases (same_key new.session_id new.request_id r)) [
  | inl here ↦
      let (session, request) = same_key_iff new.session_id new.request_id r here in
      rw here (rw (session, request) at h.0, h.1)
  | inr later ↦ rw later (
    ground (
      arith,
      any-put_row new rs r.session_id r.request_id,
      h.0,
      eq_iff r.session_id new.session_id,
      eq_iff new.session_id r.session_id,
      eq_iff r.request_id new.request_id,
      eq_iff new.request_id r.request_id,
    ),
    put_row-IsSingle new rs h.1,
  )
]

same_key_self : (r : TokenRow) → same_key r.session_id r.request_id r ≡ true
unfolding same_key
same_key_self r = rw (eq_refl r.session_id, eq_refl r.request_id) refl

-- The reasons for which a record is refused
pub data IsRefused (available : Bool) (raw final : TokenMeasurement) : Type 0 where
  unavailable : available ≡ false → IsRefused available raw final
  no_raw : raw.tokens ≡ none → IsRefused available raw final
  no_final : final.tokens ≡ none → IsRefused available raw final
  grew :
      (n m : ℕ)
      → raw.tokens ≡ some n
      → final.tokens ≡ some m
      → n < m
      → IsRefused available raw final

-- The two ends of a record: it writes the row of two measurements that do not grow, or it is refused, for one
-- of four reasons.
pub data Recorded (available : Bool) (session request : String) (raw final : TokenMeasurement)
    (rows after : List TokenRow) (answer : Bool) : Type 0 where
  written :
      (n m : ℕ)
      → available ≡ true
      → raw.tokens ≡ some n
      → final.tokens ≡ some m
      → m ≤ n
      → answer ≡ true
      → any (λ r. same_key session request r && (r.raw_tokens == n && r.final_tokens == m)) after
        ≡ true
      → Recorded available session request raw final rows after answer
  refused :
      IsRefused available raw final
      → answer ≡ false
      → after ≡ rows
      → Recorded available session request raw final rows after answer

-- A record of two measurements, by its answer and its table
put-IsTable :
    (now session request : String) (raw final : TokenMeasurement) (n m : ℕ) (rows : List TokenRow)
    → raw.tokens ≡ some n
    → final.tokens ≡ some m
    → m ≤ n
    → IsTable rows
    → IsTable (put_row (measured_row now session request raw final) rows)
unfolding measured_row
put-IsTable now session request raw final n m rows before after fits h =
    let row = measured_row now session request raw final in
    let new : IsBalanced row = ground arith in
    record {
      balanced = put_row-IsBalanced row rows new h.balanced;
      single = put_row-IsSingle row rows h.single;
    }

any-put_counted :
    (new : TokenRow) (rows : List TokenRow) (n m : ℕ)
    → new.raw_tokens ≡ n
    → new.final_tokens ≡ m
    → any
        (λ r.
          same_key new.session_id new.request_id r && (r.raw_tokens == n && r.final_tokens == m))
        (put_row new rows)
      ≡ true
unfolding put_row
any-put_counted new [] n m raw final = ground (arith, same_key_self new)
any-put_counted new (r ∷ rs) n m raw final =
    ground (arith, same_key_self new, any-put_counted new rs n m raw final)

module _ (available : Bool) (now session request : String) (raw final : TokenMeasurement)
    (rows : List TokenRow) (h : IsTable rows) where
  -- What the property says of an end of `record`
  abbrev Ends : Bool × List TokenRow → Type 0
  Ends (answer, after) =
      IsTable after × Recorded available session request raw final rows after answer

  refused-Ends :
      (x : Bool × List TokenRow) → IsRefused available raw final → x ≡ (false, rows) → Ends x
  refused-Ends x reason e = subst Ends (sym e) (h, refused reason refl refl)

  written-Ends :
      (n m : ℕ) (x : Bool × List TokenRow)
      → available ≡ true
      → raw.tokens ≡ some n
      → final.tokens ≡ some m
      → m ≤ n
      → x ≡ (true, put_row (measured_row now session request raw final) rows)
      → Ends x
  unfolding measured_row
  written-Ends n m x opened before after fits e =
      let row = measured_row now session request raw final in
      let raw_count : row.raw_tokens ≡ n = ground arith in
      let final_count : row.final_tokens ≡ m = ground arith in
      let counted = any-put_counted row rows n m raw_count final_count in
      subst Ends (sym e) (
        put-IsTable now session request raw final n m rows before after fits h,
        written n m opened before after fits refl counted,
      )

-- A record leaves a sound token table sound: one row for a request, and each row balanced. It answers that it
-- has written exactly where the table is available, both measurements are there and the second is no
-- greater than the first, and then the table has the row of the request with the two counts; otherwise
-- it answers that it has not, and the table is as it was.
pub record_tokens-IsTable :
    (available : Bool) (now session request : String) (raw final : TokenMeasurement)
    (rows : List TokenRow)
    → IsTable rows
    → let (answer, after) = record_tokens available now session request raw final rows in
      IsTable after × Recorded available session request raw final rows after answer
unfolding record_tokens
record_tokens-IsTable available now session request raw final rows h =
    let recorded = record_tokens available now session request raw final rows in
    elim (Bool-cases available) [
      | inr closed ↦
          refused-Ends available now session request raw final rows h recorded (unavailable closed)
            (ground arith)
      | inl opened ↦ elim (Option-cases raw.tokens) [
        | inl missing ↦
            refused-Ends available now session request raw final rows h recorded (no_raw missing)
              (ground arith)
        | inr (n, before) ↦ elim (Option-cases final.tokens) [
          | inl missing ↦
              refused-Ends available now session request raw final rows h recorded
                (no_final missing) (ground arith)
          | inr (m, after) ↦ elim (Bool-cases (ltb n m)) [
            | inl more ↦
                refused-Ends available now session request raw final rows h recorded
                  (grew n m before after (ltb→lt n m more)) (ground arith)
            | inr less ↦
                written-Ends available now session request raw final rows h n m recorded opened
                  before after (ltb→le n m less) (ground arith)
          ]
        ]
      ]
    ]

rows_balanced :
    (rows : List TokenRow)
    → All IsBalanced rows
    → sum_by (λ (r : TokenRow). r.final_tokens) rows
        + sum_by (λ (r : TokenRow). r.saved_tokens) rows
      ≡ sum_by (λ (r : TokenRow). r.raw_tokens) rows
rows_balanced [] h = omega arith
rows_balanced (r ∷ rs) h = omega (arith, rows_balanced rs h.1, h.0)

fallback_covered :
    (rows : List TokenRow) (metrics : List Metric)
    → All
        (λ (m : Metric).
          m.end_to_end_measured ≡ true → any (same_key m.session_id m.request_id) rows ≡ true)
        metrics
    → fallback_chars rows metrics ≡ 0
unfolding fallback_chars is_fallback
fallback_covered rows [] h = refl
fallback_covered rows (m ∷ ms) h = ground (arith, fallback_covered rows ms h.1, h.0)

round_quarter-near : (n : ℕ) → (4 * round_quarter n ≤ n + 2) × (n ≤ 4 * round_quarter n + 2)
unfolding round_quarter
round_quarter-near n = ground arith

-- The saved characters of the measured requests that have a row of tokens
abbrev pub counted_chars : List TokenRow → List Metric → ℕ
counted_chars rows metrics =
    sum_by (λ (m : Metric). m.end_to_end_saved_chars)
      (filter
        (λ (m : Metric). m.end_to_end_measured && any (same_key m.session_id m.request_id) rows)
        metrics)

fallback-counted :
    (rows : List TokenRow) (metrics : List Metric)
    → fallback_chars rows metrics + counted_chars rows metrics
      ≡ measured_sum (λ m. m.end_to_end_saved_chars) metrics
unfolding fallback_chars is_fallback measured_sum
fallback-counted rows [] = refl
fallback-counted rows (m ∷ ms) = ground (arith, fallback-counted rows ms)

-- The report counts every request that is measured end to end once: the characters that it falls back on and
-- those of the requests that have a row of tokens make up the characters that the measured requests saved.
-- On a balanced token table the final and the saved tokens make up the raw ones; the estimate is the
-- fallback's characters divided by four, to within half a token; and the best figure is the sum of the
-- saved tokens and the estimate.
pub summary_agree :
    (rows : List TokenRow) (metrics : List Metric)
    → IsTable rows
    → let s = summary rows metrics in
      (s.fallback_saved_chars + counted_chars rows metrics
        ≡ measured_sum (λ m. m.end_to_end_saved_chars) metrics)
      × (s.measured_final_tokens + s.measured_saved_tokens ≡ s.measured_raw_tokens)
      × (4 * s.fallback_estimated_saved_tokens ≤ s.fallback_saved_chars + 2)
      × (s.fallback_saved_chars ≤ 4 * s.fallback_estimated_saved_tokens + 2)
      × (s.best_available_saved_tokens
          ≡ s.measured_saved_tokens + s.fallback_estimated_saved_tokens)
unfolding summary
summary_agree rows metrics h =
    let (low, high) = round_quarter-near (fallback_chars rows metrics) in
    (fallback-counted rows metrics, rows_balanced rows h.balanced, low, high, refl)

-- Where each request that is measured end to end has its row of tokens, the report estimates nothing: the
-- savings are the measured ones.
summary_covered :
    (rows : List TokenRow) (metrics : List Metric)
    → All
        (λ (m : Metric).
          m.end_to_end_measured ≡ true → any (same_key m.session_id m.request_id) rows ≡ true)
        metrics
    → (summary rows metrics).best_available_saved_tokens
      ≡ (summary rows metrics).measured_saved_tokens
unfolding summary
summary_covered rows metrics covered =
    rw (fallback_covered rows metrics covered) (unfold round_quarter in omega arith)
