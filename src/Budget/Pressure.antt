-- ===== src/Budget/Pressure.antt =====
-- What `_minimum_omissions` (chat_target.py) takes out of a request: allowed candidates only, each under
-- pressure and each for a saving.
use Prim.Native.Char.{Char}
use token_terminator.Common.{
  ℕ, zero, suc, ◌+◌, ◌-◌, ◌≤◌, ◌<◌, String, ◌≡◌, refl, Bool, true, not, some, arith, leb, leb→lt,
  ◌==◌, Result, ok, bind-ok, Bool-cases, Option-cases, inl, inr, sym, ap, ◌∙◌, subst, raise_if,
  value_error, key_error, type_error, raise, if◌then◌else◌,
}
use token_terminator.Json.{
  Value, null, boolean, number, text, array, object, Items, nil, item, Fields, get, has, set,
}
use token_terminator.Compactor.Turns.{size, rest_items}
use token_terminator.Compactor.Starts.{rest_items-rest_items}
use token_terminator.Budget.Omissions.{
  items_at, history_of, set_item, may_replace, smaller_trial, try_item, omit_item, omit_loop,
  history_key, minimum_omissions,
}

history_of-items :
    (key : String) (fs : Fields) (xs : Items) → history_of key fs ≡ ok xs → xs ≡ items_at key fs
unfolding history_of
history_of-items key fs xs h = go (get key fs) h
  where
    go :
        (v : Value)
        → (elim v [ array ys ↦ ok ys | _ ↦ raise (if has key fs then type_error else key_error) ])
          ≡ ok xs
        → xs ≡ (elim v [ array ys ↦ ys | _ ↦ nil ])
    go (array ys) h = ground arith
    go null h = absurd (ground arith)
    go (boolean b) h = absurd (ground arith)
    go (number q) h = absurd (ground arith)
    go (text s) h = absurd (ground arith)
    go (object gs) h = absurd (ground arith)

module _ (is_word : Char → Bool) (same_letter : Char → Char → Bool) (lower : String → String)
    (equal : Value → Value → Bool) (encoded : Value → ℕ) (measure : Value → Result ℕ) where
  -- One omission: an allowed candidate in the place of an item below the limit, where the request is over its
  -- budget, for fewer tokens and a shorter encoding
  pub record IsOmission (key : String) (budget limit : ℕ) (source proposal : Items)
      (working trial : Fields) : Type 0 where
    pub index : ℕ
    pub below : index < limit
    pub original : Value
    pub candidate : Value
    pub later : Items
    pub others : Items
    pub rest : Items
    pub found : rest_items index source ≡ item original later
    pub proposed : rest_items index proposal ≡ item candidate others
    pub allowed :
        may_replace is_word same_letter lower equal encoded measure original candidate ≡ ok true
    pub placed : set_item index candidate (items_at key working) ≡ some rest
    pub written : trial ≡ set key (array rest) working
    pub before : ℕ
    pub after : ℕ
    pub measured_before : measure (object working) ≡ ok before
    pub measured_after : measure (object trial) ≡ ok after
    pub pressed : budget < before
    pub fewer : after < before
    pub shorter : encoded (object trial) < encoded (object working)

  -- A number of omissions one after the other
  pub data Omits (key : String) (budget limit : ℕ) (source proposal : Items)
      : Fields → Fields → ℕ → Type 0 where
    none_more : (w : Fields) → Omits key budget limit source proposal w w 0
    omit :
        {w t u : Fields} {n : ℕ}
        → IsOmission key budget limit source proposal w t
        → Omits key budget limit source proposal t u n
        → Omits key budget limit source proposal w u (suc n)

  -- A trial that is taken
  record IsTaken (budget : ℕ) (working trial : Fields) : Type 0 where
    before : ℕ
    after : ℕ
    measured_before : measure (object working) ≡ ok before
    measured_after : measure (object trial) ≡ ok after
    fewer : after < before
    shorter : encoded (object trial) < encoded (object working)

  smaller_trial-IsTaken :
      (budget : ℕ) (working trial t : Fields)
      → smaller_trial is_word same_letter lower equal encoded measure working trial ≡ ok (some t)
      → (t ≡ trial) × IsTaken budget working trial
  unfolding smaller_trial
  smaller_trial-IsTaken budget working trial t h =
      let (after, measured_after, h1) = bind-ok (measure (object trial)) _ (some t) h in
      let (before, measured_before, h2) = bind-ok (measure (object working)) _ (some t) h1 in
      (
        ground arith,
        record {
          before = before;
          after = after;
          measured_before = measured_before;
          measured_after = measured_after;
          fewer = ground arith;
          shorter = ground arith;
        },
      )

  omit_item-IsOmission :
      (key : String) (budget limit i tokens : ℕ) (source proposal : Items) (s p : Value)
      (ss ps : Items) (w t : Fields)
      → i < limit
      → rest_items i source ≡ item s ss
      → rest_items i proposal ≡ item p ps
      → measure (object w) ≡ ok tokens
      → budget < tokens
      → omit_item is_word same_letter lower equal encoded measure key i s p w ≡ ok (some t)
      → IsOmission key budget limit source proposal w t
  unfolding omit_item try_item
  omit_item-IsOmission key budget limit i tokens source proposal s p ss ps w t below found proposed
        measured pressed h =
      let (allowed, may, h1) =
        bind-ok (may_replace is_word same_letter lower equal encoded measure s p) _ (some t) h in
      elim (Bool-cases allowed) [
        | inr refused ↦ absurd (ground arith)
        | inl fine ↦ elim (Option-cases (set_item i p (items_at key w))) [
          | inl outside ↦ absurd (ground arith)
          | inr (xs, placed) ↦
              let trial = set key (array xs) w in
              let (same, taken) = smaller_trial-IsTaken budget w trial t (ground arith) in
              let tokens_before : taken.before ≡ tokens = ground arith in
              record {
                index = i;
                below = below;
                original = s;
                candidate = p;
                later = ss;
                others = ps;
                rest = xs;
                found = found;
                proposed = proposed;
                allowed = may ∙ ap ok fine;
                placed = placed;
                written = same;
                before = taken.before;
                after = taken.after;
                measured_before = taken.measured_before;
                measured_after = ap (λ x. measure (object x)) same ∙ taken.measured_after;
                pressed = omega (arith, pressed, tokens_before);
                fewer = taken.fewer;
                shorter =
                    subst (λ x. encoded (object x) < encoded (object w)) (sym same) taken.shorter;
              }
        ]
      ]

  next_item :
      (i : ℕ) (xs : Items) (x : Value) (rest : Items)
      → rest_items i xs ≡ item x rest
      → rest_items (suc i) xs ≡ rest
  unfolding rest_items
  next_item i xs x rest e =
      let two : rest_items 1 (rest_items i xs) ≡ rest_items (i + 1) xs =
        rest_items-rest_items 1 i xs in
      let one : rest_items 1 (rest_items i xs) ≡ rest_items 1 (item x rest) = ap (rest_items 1) e in
      ground arith

  stopped :
      (key : String) (budget limit k m : ℕ) (source proposal : Items) (w u : Fields)
      → w ≡ u
      → k ≡ m
      → (d : ℕ) × (m ≡ k + d) × Omits key budget limit source proposal w u d
  stopped key budget limit k m source proposal w u same count = (
    0,
    omega (arith, count),
    subst (λ x. Omits key budget limit source proposal w x 0) same (none_more w),
  )

  omit_loop-Omits :
      (key : String) (budget limit n i k m : ℕ) (source proposal ss ps : Items) (w u : Fields)
      → i + n ≤ limit
      → rest_items i source ≡ ss
      → rest_items i proposal ≡ ps
      → omit_loop is_word same_letter lower equal encoded measure key budget n i ss ps w k
        ≡ ok (u, m)
      → (d : ℕ) × (m ≡ k + d) × Omits key budget limit source proposal w u d
  unfolding omit_loop
  omit_loop-Omits key budget limit zero i k m source proposal ss ps w u le found proposed h =
      stopped key budget limit k m source proposal w u (ground arith) (ground arith)
  omit_loop-Omits key budget limit (suc n) i k m source proposal nil ps w u le found proposed h =
      stopped key budget limit k m source proposal w u (ground arith) (ground arith)
  omit_loop-Omits key budget limit (suc n) i k m source proposal (item s ss) nil w u le found
        proposed h =
      stopped key budget limit k m source proposal w u (ground arith) (ground arith)
  omit_loop-Omits key budget limit (suc n) i k m source proposal (item s ss) (item p ps) w u le
        found proposed h =
      let (tokens, measured, h1) = bind-ok (measure (object w)) _ (u, m) h in
      elim (Bool-cases (leb tokens budget)) [
        | inl fits ↦ stopped key budget limit k m source proposal w u (ground arith) (ground arith)
        | inr over ↦
            let (next, rounded, h2) =
              bind-ok (omit_item is_word same_letter lower equal encoded measure key i s p w) _
                (u, m) (rw over at h1) in
            elim (Option-cases next) [
              | inl kept ↦
                  omit_loop-Omits key budget limit n (suc i) k m source proposal ss ps w u
                    (omega (arith, le)) (next_item i source s ss found)
                    (next_item i proposal p ps proposed) (rw kept at h2)
              | inr (t, taken) ↦
                  let (d, sum, rest) =
                    omit_loop-Omits key budget limit n (suc i) (k + 1) m source proposal ss ps t u
                      (omega (arith, le)) (next_item i source s ss found)
                      (next_item i proposal p ps proposed) (rw taken at h2) in
                  (
                    suc d,
                    omega (arith, sum),
                    omit
                        (omit_item-IsOmission key budget limit i tokens source proposal s p ss ps w
                          t (omega (arith, le)) found proposed measured (leb→lt _ _ over)
                          (rounded ∙ ap ok taken))
                        rest,
                  )
            ]
      ]

  -- Only enough is omitted: what `_minimum_omissions` returns comes from the working request by exactly as many
  -- omissions as it counts, one after the other. Each puts the proposal's item in the place of the request's at
  -- the same index, which is below the protected last messages; the source's item there is plain and
  -- unguarded and the candidate a receipt; before it the request was over its budget, and after it
  -- the request has fewer tokens and a shorter encoding.
  pub minimum_omissions-Omits :
      (original working proposal u : Fields) (budget protect_last m : ℕ)
      → minimum_omissions is_word same_letter lower equal encoded measure original working proposal
          budget protect_last
        ≡ ok (u, m)
      → Omits
          (history_key original)
          budget
          (size (items_at (history_key original) original) - protect_last)
          (items_at (history_key original) original)
          (items_at (history_key original) proposal)
          working
          u
          m
  unfolding minimum_omissions rest_items
  minimum_omissions-Omits original working proposal u budget protect_last m h =
      let key = history_key original in
      let source = items_at key original in
      let candidates = items_at key proposal in
      let limit = size source - protect_last in
      let (xs, listed, h1) = bind-ok (history_of key original) _ (u, m) h in
      let (ys, proposed, h2) = bind-ok (history_of key proposal) _ (u, m) h1 in
      let (checked, aligned, h3) =
        bind-ok (raise_if (not (size xs == size ys)) value_error) _ (u, m) h2 in
      let run : omit_loop is_word same_letter lower equal encoded measure key budget limit 0 source
            candidates working 0
          ≡ ok (u, m) =
        subst
          (λ c.
            omit_loop is_word same_letter lower equal encoded measure key budget limit 0 source c
              working 0
            ≡ ok (u, m))
          (history_of-items key proposal ys proposed)
          (subst
            (λ s.
              omit_loop is_word same_letter lower equal encoded measure key budget
                (size s - protect_last) 0 s ys working 0
              ≡ ok (u, m))
            (history_of-items key original xs listed) h3) in
      let (d, sum, omits) =
        omit_loop-Omits key budget limit limit 0 0 m source candidates source candidates working u
          (omega arith) refl refl run in
      subst (Omits key budget limit source (items_at key proposal) working u) (omega (arith, sum))
        omits
