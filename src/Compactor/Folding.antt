-- ===== src/Compactor/Folding.antt =====
-- The folded request ends with the recent turns.
use token_terminator.Common.{
  ℕ, zero, suc, List, [], ◌∷◌, join, length, ◌+◌, ◌-◌, ◌≤◌, String, ◌≡◌, refl, some, arith, ok,
  Bool-cases, Result-cases, Option-cases, inl, inr, ap, ◌∙◌, subst,
}
use token_terminator.Json.{
  Value, null, boolean, number, text, array, object, Items, nil, item, Fields, get, set,
}
use token_terminator.Compactor.Turns.{size, rest_items, append_items, is_user}
use token_terminator.Compactor.Collapse.{
  Collapsing, collapse_loop, prefix_content, place_block, retain, fold_onto, fold_summaries,
  collapse_old,
}
use token_terminator.Compactor.Starts.{rest_items-rest_items, Holds}
use token_terminator.Compactor.Tail.{
  ends, EndsWith-front, EndsWith-rest, Kept, exact, prefixed, InStep, collapse_loop-InStep,
}

placed-Kept :
    (block : String) (content : Value) (fs : Fields) (later before zs : Items) (d : ℕ)
    → prefix_content block (get "content" fs) ≡ some content
    → zs ≡ append_items before (item (object (set "content" content fs)) later)
    → Kept (rest_items d (item (object fs) later)) zs
unfolding rest_items append_items
placed-Kept block content fs later before zs zero found e =
    prefixed fs later block content refl found (ends before e)
placed-Kept block content fs later before zs (suc d) found e = exact (
    rw e (
      EndsWith-front before (rest_items d later) (item (object (set "content" content fs)) later) (
        EndsWith-front (item (object (set "content" content fs)) nil) (rest_items d later) later
          (EndsWith-rest d later))))

retain-Kept :
    (block : String) (n d : ℕ) (before rest zs : Items) (k : ℕ)
    → retain block n before rest ≡ some (zs, k)
    → Kept (rest_items d rest) zs
unfolding retain place_block
retain-Kept block n d before nil zs k h = absurd (ground arith)
retain-Kept block n d before (item (object fs) later) zs k h =
    elim (Bool-cases (is_user (object fs))) [
      | inl user ↦ elim (Option-cases (prefix_content block (get "content" fs))) [
        | inl absent ↦ absurd (ground arith)
        | inr (content, found) ↦ placed-Kept block content fs later before zs d found (ground arith)
      ]
      | inr plain ↦ absurd (ground arith)
    ]
retain-Kept block n d before (item null later) zs k h = absurd (ground arith)
retain-Kept block n d before (item (boolean b) later) zs k h = absurd (ground arith)
retain-Kept block n d before (item (number q) later) zs k h = absurd (ground arith)
retain-Kept block n d before (item (text s) later) zs k h = absurd (ground arith)
retain-Kept block n d before (item (array xs) later) zs k h = absurd (ground arith)

fold_onto-Kept :
    (ss : List String) (d : ℕ) (before rest zs : Items) (k : ℕ)
    → fold_onto ss before rest ≡ some (zs, k)
    → Kept (rest_items d rest) zs
unfolding fold_onto
fold_onto-Kept [] d before rest zs k h =
    let whole : zs ≡ append_items before rest = ground arith in
    exact (rw whole (EndsWith-front before (rest_items d rest) rest (EndsWith-rest d rest)))
fold_onto-Kept (s ∷ ss) d before rest zs k h =
    retain-Kept (join "\n" (s ∷ ss)) (length (s ∷ ss)) d before rest zs k h

module _ (shown : Value → String) (cutoff : ℕ) (xs : Items) (user : Holds is_user cutoff xs) where
  -- The last items of what is left are those of the request.
  InStep-tail :
      (c : Collapsing)
      → InStep cutoff xs c
      → rest_items (cutoff - c.index) c.rest ≡ rest_items cutoff xs
  InStep-tail c inside =
      let same : c.index + (cutoff - c.index) ≡ cutoff = omega (arith, inside.below) in
      ap (rest_items (cutoff - c.index)) inside.rest
      ∙ (rest_items-rest_items (cutoff - c.index) c.index xs ∙ ap (λ k. rest_items k xs) same)

  pub collapse_old-Kept :
      (stop : ℕ) (zs : Items) (k : ℕ)
      → stop ≤ cutoff
      → collapse_old shown stop xs ≡ ok (zs, k)
      → Kept (rest_items cutoff xs) zs
  unfolding collapse_old fold_summaries rest_items
  collapse_old-Kept stop zs k le h =
      let start : Collapsing = record {
        index = 0;
        rest = xs;
        new_messages = nil;
        summaries = [];
      } in
      elim (Option-cases (collapse_loop shown (suc (size xs)) stop start)) [
        | inl none_left ↦ absurd (ground arith)
        | inr (r, looped) ↦ elim (Result-cases r) [
          | inr (e, failed) ↦ absurd (ground arith)
          | inl (c, returned) ↦
              let inside : InStep cutoff xs c =
                collapse_loop-InStep shown cutoff xs user (suc (size xs)) stop start c le
                  (record { below = omega arith; rest = refl }) (looped ∙ ap some returned) in
              elim (Option-cases (fold_onto c.summaries c.new_messages c.rest)) [
                | inl refused ↦
                    let same : zs ≡ xs = ground arith in exact (rw same (EndsWith-rest cutoff xs))
                | inr ((ys, n), folded) ↦
                    let same : ys ≡ zs = ground arith in
                    subst (λ t. Kept t zs) (InStep-tail c inside)
                      (subst (Kept (rest_items (cutoff - c.index) c.rest)) same (
                        fold_onto-Kept c.summaries (cutoff - c.index) c.new_messages c.rest ys n
                          folded))
              ]
        ]
      ]
