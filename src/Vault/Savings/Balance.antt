-- ===== src/Vault/Savings/Balance.antt =====
-- The savings algebra of `request_metrics`: every write keeps each row balanced, a compiler-only
-- write leaves a measured row alone, and the sums that are reported agree.
use token_terminator.Common.{
  ◌+◌, ◌≤◌, String, ◌≡◌, refl, Bool, true, false, Option, none, some, List, [], ◌∷◌, arith,
  if◌then◌else◌, ok, All, Result-cases, Bool-cases, inl, inr, any,
}
use token_terminator.Vault.Savings.{
  Metric, Measurement, saved_of, check_metric, compiled_row, same_request, update_compiled, upsert,
  set_final, update_final, record_request_metric, IsBalanced, IsSingle, same_request_iff, counts,
}
use token_terminator.Vault.Savings.Keys.{upsert-IsSingle, update_final-IsSingle}

-- What the tests of a call have shown.
record IsChecked (m : Measurement) : Type 0 where
  compiler : m.compiled_chars + saved_of m ≡ m.raw_chars
  final : m.end_to_end_measured ≡ true → m.final_chars ≤ m.compiled_chars

check_metric-ok : (m : Measurement) → check_metric m ≡ ok tt → IsChecked m
unfolding check_metric
check_metric-ok m h = record { compiler = ground arith; final = λ e. ground arith }

compiled_row-IsBalanced :
    (now : String) (m : Measurement) → IsChecked m → IsBalanced (compiled_row now m)
unfolding compiled_row
compiled_row-IsBalanced now m c = record {
  compiler = c.compiler;
  measured = λ e. absurd (ground arith);
  whole = λ e. absurd (ground arith);
  unmeasured = λ e. (refl, refl, refl);
}

-- An update by an unmeasured row.
update_compiled-IsBalanced :
    (measured : Bool) (new old : Metric)
    → IsBalanced new
    → IsBalanced old
    → IsBalanced (update_compiled measured new old)
unfolding update_compiled
update_compiled-IsBalanced measured new old n o = record {
  compiler = ground (arith, n.compiler, o.compiler);
  measured = ground (arith, o.measured);
  whole = ground (arith, o.whole);
  unmeasured = ground (arith, o.unmeasured);
}

upsert-IsBalanced :
    (measured : Bool) (new : Metric) (rows : List Metric)
    → IsBalanced new
    → All IsBalanced rows
    → All IsBalanced (upsert measured new rows)
unfolding upsert
upsert-IsBalanced measured new [] n h = (n, tt)
upsert-IsBalanced measured new (r ∷ rs) n h =
    place (same_request new.session_id new.request_id r) (upsert-IsBalanced measured new rs n h.1)
  where
    place :
        (b : Bool)
        → All IsBalanced (upsert measured new rs)
        → All IsBalanced
            (if b then update_compiled measured new r ∷ rs else r ∷ upsert measured new rs)
    place true later = (update_compiled-IsBalanced measured new r n h.0, h.1)
    place false later = (h.0, later)

-- The row of the call, if `r` is it, has the compiler's columns of the call.
abbrev Compiled : Measurement → Metric → Type 0
Compiled m r =
    same_request m.session_id m.request_id r ≡ true
    → (r.raw_chars ≡ m.raw_chars)
      × (r.compiled_chars ≡ m.compiled_chars)
      × (r.saved_chars ≡ saved_of m)

others_Compiled :
    (m : Measurement) (rows : List Metric)
    → any (same_request m.session_id m.request_id) rows ≡ false
    → All (Compiled m) rows
others_Compiled m [] h = tt
others_Compiled m (r ∷ rs) h = (λ same. absurd (ground arith), others_Compiled m rs (ground arith))

update_compiled-Compiled :
    (now : String) (m : Measurement) (r : Metric)
    → Compiled m (update_compiled true (compiled_row now m) r)
unfolding update_compiled compiled_row
update_compiled-Compiled now m r same = ground arith

upsert-Compiled :
    (now : String) (m : Measurement) (rows : List Metric)
    → IsSingle rows
    → All (Compiled m) (upsert true (compiled_row now m) rows)
unfolding upsert compiled_row
upsert-Compiled now m [] single = (λ same. (refl, refl, refl), tt)
upsert-Compiled now m (r ∷ rs) single =
    elim (Bool-cases (same_request m.session_id m.request_id r)) [
      | inl same ↦
          let (session, request) = same_request_iff m.session_id m.request_id r same in
          rw same (
            update_compiled-Compiled now m r,
            others_Compiled m rs (rw (session, request) at single.0),
          )
      | inr other ↦ rw other ((λ same. absurd (ground arith)), upsert-Compiled now m rs single.1)
    ]

set_final-IsBalanced :
    (m : Measurement) (r : Metric)
    → IsChecked m
    → m.end_to_end_measured ≡ true
    → IsBalanced r
    → (r.raw_chars ≡ m.raw_chars)
      × (r.compiled_chars ≡ m.compiled_chars)
      × (r.saved_chars ≡ saved_of m)
    → IsBalanced (set_final m r)
unfolding set_final
set_final-IsBalanced m r c e b h = record {
  compiler = b.compiler;
  measured = λ _. omega (arith, c.final e, h.1);
  whole = λ _. omega (arith, c.final e, c.compiler, h.0, h.1, h.2);
  unmeasured = λ f. absurd (ground arith);
}

update_final-IsBalanced :
    (m : Measurement) (rows : List Metric)
    → IsChecked m
    → m.end_to_end_measured ≡ true
    → All IsBalanced rows
    → All (Compiled m) rows
    → All IsBalanced (update_final m rows)
unfolding update_final
update_final-IsBalanced m [] c e b h = tt
update_final-IsBalanced m (r ∷ rs) c e b h =
    let rest = update_final-IsBalanced m rs c e b.1 h.1 in
    elim (Bool-cases (same_request m.session_id m.request_id r)) [
      | inl same ↦ rw same (set_final-IsBalanced m r c e b.0 (h.0 same), rest)
      | inr other ↦ rw other (b.0, rest)
    ]

record-ok :
    (now : String) (m : Measurement) (rows after : List Metric)
    → record_request_metric now m rows ≡ ok after
    → (check_metric m ≡ ok tt)
      × (after ≡ (
          if m.end_to_end_measured
          then update_final m (upsert m.end_to_end_measured (compiled_row now m) rows)
          else upsert m.end_to_end_measured (compiled_row now m) rows))
unfolding record_request_metric
record-ok now m rows after h = elim (Result-cases (check_metric m)) [
  | inl (tt, passed) ↦ ground arith
  | inr (e, failed) ↦ absurd (ground arith)
]

-- `record_request_metric` keeps the table sound: where it has one row for a request and each row is balanced
-- before a call, the same holds of every table that the call returns. A row is balanced where the
-- compiler's savings are the difference of its columns, and where a row that is measured end to end has
-- the compiler's and the compactor's savings as its whole ones, while an unmeasured row claims none.
pub record_request_metric-IsBalanced :
    (now : String) (m : Measurement) (rows after : List Metric)
    → All IsBalanced rows
    → IsSingle rows
    → record_request_metric now m rows ≡ ok after
    → All IsBalanced after × IsSingle after
unfolding compiled_row update_final set_final
record_request_metric-IsBalanced now m rows after b single h =
    let (passed, same) = record-ok now m rows after h in
    let c : IsChecked m = check_metric-ok m passed in
    let new = compiled_row now m in
    elim (Bool-cases m.end_to_end_measured) [
      | inl e ↦ rw same (
          rw e (
            update_final-IsBalanced m (upsert true new rows) c e
                (upsert-IsBalanced true new rows (compiled_row-IsBalanced now m c) b)
                (upsert-Compiled now m rows single),
            update_final-IsSingle m (upsert true new rows) (upsert-IsSingle true new rows single),
          ))
      | inr e ↦ rw same (
          rw e (
            upsert-IsBalanced false new rows (compiled_row-IsBalanced now m c) b,
            upsert-IsSingle false new rows single,
          ))
    ]

-- SELECT … WHERE session_id=? AND request_id=?
abbrev pub metric_of : String → String → List Metric → Option Metric
metric_of s q [] = none
metric_of s q (r ∷ rs) = if same_request s q r then some r else metric_of s q rs

upsert_idle :
    (now : String) (m : Measurement) (rows : List Metric) (r : Metric)
    → metric_of m.session_id m.request_id rows ≡ some r
    → r.end_to_end_measured ≡ true
    → upsert false (compiled_row now m) rows ≡ rows
unfolding upsert update_compiled compiled_row
upsert_idle now m [] r found measured = absurd (ground arith)
upsert_idle now m (s ∷ rs) r found measured = ground (arith, upsert_idle now m rs r)

-- A compiler-only record never touches a request that is already measured end to end, so an early and a
-- late measurement of one request are not counted twice.
pub record_request_metric-compiler_only :
    (now : String) (m : Measurement) (rows after : List Metric) (r : Metric)
    → m.end_to_end_measured ≡ false
    → metric_of m.session_id m.request_id rows ≡ some r
    → r.end_to_end_measured ≡ true
    → record_request_metric now m rows ≡ ok after
    → after ≡ rows
unfolding compiled_row
record_request_metric-compiler_only now m rows after r early found measured h =
    let (passed, same) = record-ok now m rows after h in
    rw same (rw early (upsert_idle now m rows r found measured))

-- In a table of balanced rows the sums that `counts` reports agree: the end-to-end savings are the
-- compiler's and the compactor's, and with the final characters they are the raw characters; and each
-- request is counted as measured or as compiler-only.
pub counts_agree :
    (rows : List Metric)
    → All IsBalanced rows
    → let c = counts rows in
      (c.end_to_end_saved_chars
        ≡ c.measured_compiler_saved_chars + c.measured_compactor_saved_chars)
      × (c.measured_final_chars + c.end_to_end_saved_chars ≡ c.measured_raw_chars)
      × (c.end_to_end_requests + c.compiler_only_requests ≡ c.requests)
unfolding counts
counts_agree [] h = (omega arith, omega arith, omega arith)
counts_agree (r ∷ rs) h =
    let (saved, whole, split) = counts_agree rs h.1 in
    elim (Bool-cases r.end_to_end_measured) [
      | inl e ↦ rw e (
        omega (arith, saved, h.0.whole e),
        omega (arith, whole, h.0.whole e, h.0.measured e, h.0.compiler),
        omega (arith, split),
      )
      | inr e ↦ rw e (saved, whole, omega (arith, split))
    ]
