-- ===== src/Compactor/Delivery.antt =====
-- What `compact` delivers: the recent turns at the end of the request, and every other key as it was.
use Prim.Native.Char.{Char}
use token_terminator.Common.{
  ℕ, ◌-◌, ◌≤◌, String, count, ◌≡◌, refl, Bool, ◌&&◌, ◌||◌, Option, none, some, arith, ltb, leb,
  length, Result, ok, Bool-cases, bind-ok, inl, inr, ◌⊎◌, sym, ap, ◌∙◌, subst,
}
use token_terminator.Common.Actions.{continue-value}
use token_terminator.Json.{Number, Value, array, object, Items, nil, Fields, set}
use token_terminator.Vault.Tables.{Vault}
use token_terminator.Compactor.Turns.{
  Mode, Compactor, open_compactor, mode_of, size, rest_items, is_user, turn_starts, start_at,
}
use token_terminator.Compactor.Vaulting.{Session, vault_items}
use token_terminator.Compactor.Collapse.{collapse_phase}
use token_terminator.Compactor.Request.{
  CompactionResult, Outcome, outcome_of, put_counts, items_in, items_key, starts_turn,
  compact_items, compact_mode, accept, compact_request,
}
use token_terminator.Compactor.Starts.{Holds, holds, start_at_monotone, start_at-Holds}
use token_terminator.Compactor.Tail.{vault_items-rest, EndsWith, EndsWith-rest, Kept, exact}
use token_terminator.Compactor.Folding.{collapse_old-Kept}
use token_terminator.Compactor.Reduction.{
  pop_counts-put_counts, pop_counts-set, IsPlain, IsPlain-pop_counts, refused, smaller,
  accept-Accepted, original_of-IsPlain, compact_request-returns,
}

-- Turns collapse only once they are too old to stay inline.
abbrev pub IsOrdered : Compactor → Type 0
IsOrdered cp = (cp.collapse_after_turns ≡ 0) ⊎ (cp.inline_recent_turns ≤ cp.collapse_after_turns)

pub open_compactor-IsOrdered :
    (chars collapse inline : ℕ) → IsOrdered (open_compactor chars collapse inline)
unfolding open_compactor
open_compactor-IsOrdered chars collapse inline = elim (Bool-cases (ltb 0 collapse)) [
  | inl more ↦ inr (ground arith)
  | inr nothing ↦ inl (ground arith)
]

cutoff-Holds :
    (test : Value → Bool) (k : ℕ) (xs ys : Items) (cutoff : ℕ)
    → start_at k (turn_starts test 0 xs) ≡ ok cutoff
    → rest_items cutoff ys ≡ rest_items cutoff xs
    → Holds test cutoff ys
cutoff-Holds test k xs ys cutoff started same =
    let (d, e, at) = start_at-Holds test k 0 xs cutoff started in moved d (omega (arith, e)) at
  where
    moved : (d : ℕ) → d ≡ cutoff → Holds test d xs → Holds test cutoff ys
    moved d e (holds v later found passes) =
        holds v later (same ∙ (ap (λ n. rest_items n xs) (sym e) ∙ found)) passes

module _ (shown : Value → String) (cp : Compactor) where
  collapse_phase-Kept :
      (mode : Mode) (xs ys zs : Items) (k cutoff : ℕ)
      → IsOrdered cp
      → start_at
          (length (turn_starts (starts_turn mode) 0 xs) - cp.inline_recent_turns)
          (turn_starts (starts_turn mode) 0 xs)
        ≡ ok cutoff
      → rest_items cutoff ys ≡ rest_items cutoff xs
      → collapse_phase shown cp mode xs ys ≡ ok (zs, k)
      → Kept (rest_items cutoff xs) zs
  unfolding collapse_phase
  collapse_phase-Kept Mode.responses xs ys zs k cutoff ordered started same h =
      let whole : ys ≡ zs = ground arith in
      exact (
        subst (λ t. EndsWith t zs) same
          (subst (EndsWith (rest_items cutoff ys)) whole (EndsWith-rest cutoff ys)))
  collapse_phase-Kept Mode.messages xs ys zs k cutoff ordered started same h =
      let starts = turn_starts is_user 0 xs in
      elim (Bool-cases
        (ltb 0 cp.collapse_after_turns && ltb cp.collapse_after_turns (length starts))) [
          | inr recent ↦
              let whole : ys ≡ zs = ground arith in
              exact (
                subst (λ t. EndsWith t zs) same
                  (subst (EndsWith (rest_items cutoff ys)) whole (EndsWith-rest cutoff ys)))
          | inl old ↦
              let (stop, first, h1) =
                bind-ok (start_at (length starts - cp.collapse_after_turns) starts) _ (zs, k)
                  (rw old at h) in
              let le : stop ≤ cutoff =
                start_at_monotone is_user (length starts - cp.collapse_after_turns)
                  (length starts - cp.inline_recent_turns) 0 xs stop cutoff (ground arith) first
                  started in
              subst (λ t. Kept t zs) same
                (collapse_old-Kept shown cutoff ys
                  (cutoff-Holds is_user (length starts - cp.inline_recent_turns) xs ys cutoff
                    started same)
                  stop zs k le h1)
        ]

module _ (dumps compact : Value → String) (digest : String → String) (safe : Char → Bool)
    (equal : Value → Value → Bool) (shown : Value → String) (int_of : Value → Result Number)
    (cp : Compactor) (c : Session) (mode : Mode) where
  -- The index that the recent turns start at
  abbrev pub IsCutoff : Items → ℕ → Type 0
  IsCutoff xs cutoff =
      start_at (length (turn_starts (starts_turn mode) 0 xs) - cp.inline_recent_turns)
        (turn_starts (starts_turn mode) 0 xs)
      ≡ ok cutoff

  compact_items-Kept :
      (xs zs : Items) (a b cutoff : ℕ) (v : Vault)
      → IsOrdered cp
      → IsCutoff xs cutoff
      → (compact_items dumps compact digest safe equal shown int_of cp c mode xs v).0
        ≡ ok (some (zs, a, b))
      → Kept (rest_items cutoff xs) zs
  unfolding compact_items
  compact_items-Kept xs zs a b cutoff v ordered started h =
      let starts = turn_starts (starts_turn mode) 0 xs in
      elim (Bool-cases (ltb (size xs) 2 || leb (length starts) cp.inline_recent_turns)) [
        | inl few ↦
            let nothing : ◌≡◌ {A = Result (Option (Items × ℕ × ℕ))} (ok none)
                (ok (some (zs, a, b))) =
              rw few at h in
            absurd (ground arith)
        | inr enough ↦
            let (stop, first, h1) =
              continue-value (start_at (length starts - cp.inline_recent_turns) starts, v) _
                (some (zs, a, b)) (rw enough at h) in
            let same_stop : stop ≡ cutoff = ground arith in
            let ((ys, n), vaulted, h2) =
              continue-value (vault_items compact digest safe equal shown cp c mode stop nil xs v) _
                (some (zs, a, b)) h1 in
            let ((ws, k), folded, h3) =
              continue-value
                (
                  collapse_phase shown cp mode xs ys,
                  (vault_items compact digest safe equal shown cp c mode stop nil xs v).1,
                )
                _ (some (zs, a, b)) h2 in
            let last : ws ≡ zs = ground arith in
            subst (Kept (rest_items cutoff xs)) last (
              collapse_phase-Kept shown cp mode xs ys ws k cutoff ordered started
                (subst (λ t. rest_items t ys ≡ rest_items t xs) same_stop
                  (vault_items-rest compact digest safe equal shown cp c mode stop nil xs ys n v
                    vaulted))
                folded)
      ]

  -- The request as it was, or with other items that keep the recent turns
  pub data Delivered (fs : Fields) (cutoff : ℕ) (r : CompactionResult) : Type 0 where
    unchanged : r.request ≡ object fs → Delivered fs cutoff r
    compacted :
        (zs : Items)
        → r.request ≡ object (set (items_key mode) (array zs) fs)
        → Kept (rest_items cutoff (items_in mode fs)) zs
        → Delivered fs cutoff r

  accept-Delivered :
      (fs : Fields) (raw cutoff : ℕ) (found : Option (Items × ℕ × ℕ)) (v : Vault)
      → IsOrdered cp
      → IsPlain fs
      → IsCutoff (items_in mode fs) cutoff
      → (compact_items dumps compact digest safe equal shown int_of cp c mode
          (items_in mode fs)
          v).0
        ≡ ok found
      → Delivered fs cutoff
          (accept dumps compact digest safe equal shown int_of fs raw (outcome_of mode fs found))
  unfolding outcome_of
  accept-Delivered fs raw cutoff none v ordered plain started h =
      elim (accept-Accepted dumps compact digest safe equal shown int_of fs raw Outcome.same) [
        | refused failed e ↦
            unchanged (rw e (ap object (original_of-IsPlain fs Outcome.same plain)))
        | smaller request chars measured less sum fine ↦
            unchanged (request ∙ ap object (IsPlain-pop_counts fs plain))
      ]
  accept-Delivered fs raw cutoff (some (zs, a, b)) v ordered plain started h =
      let placed = set (items_key mode) (array zs) fs in
      elim (accept-Accepted dumps compact digest safe equal shown int_of fs raw
        (Outcome.changed (put_counts a b placed))) [
          | refused failed e ↦ unchanged (rw e refl)
          | smaller request chars measured less sum fine ↦
              compacted zs
                (request
                  ∙ ap object (
                      pop_counts-put_counts a b placed
                      ∙ (pop_counts-set mode (array zs) fs
                          ∙ ap (set (items_key mode) (array zs)) (IsPlain-pop_counts fs plain))))
                (compact_items-Kept (items_in mode fs) zs a b cutoff v ordered started h)
        ]

  -- Compaction never touches the recent turns: whatever the vault holds and whatever fails, the result is the
  -- request itself, or the request with another list of items and every other key as it was, and that
  -- list ends with the items from the cutoff on, the start of the last `inline_recent_turns` turns. At most
  -- the first of them differs, by a block put before its content. The compactor's windows are ordered,
  -- as its constructor orders them, the cutoff exists, and the request does not bring the keys of the
  -- compactor's own counts.
  pub compact_request-Delivered :
      (fs : Fields) (cutoff : ℕ) (s : Vault)
      → IsOrdered cp
      → IsPlain fs
      → mode_of fs ≡ some mode
      → IsCutoff (items_in mode fs) cutoff
      → (r : CompactionResult) × ((compact_request dumps compact digest safe equal shown int_of cp c
            (object fs)
            s).0
          ≡ ok r)
        × Delivered fs cutoff r
  unfolding compact_mode
  compact_request-Delivered fs cutoff s ordered plain known started =
      compact_request-returns dumps compact digest safe equal shown int_of (Delivered fs cutoff) cp
        c fs s (λ failed. unchanged refl)
        (λ other outcome also made.
          let same : other ≡ mode = ground arith in
          let (found, compacted_items, h1) =
            continue-value
              (compact_items dumps compact digest safe equal shown int_of cp c mode
                (items_in mode fs) s)
              _ outcome
              (subst
                (λ m.
                  (compact_mode dumps compact digest safe equal shown int_of cp c m fs s).0
                  ≡ ok outcome)
                same made) in
          let reached : outcome_of mode fs found ≡ outcome = ground arith in
          subst
            (λ o. Delivered fs cutoff (
              accept dumps compact digest safe equal shown int_of fs (count (dumps (object fs))) o))
            reached
            (accept-Delivered fs (count (dumps (object fs))) cutoff found s ordered plain started
              compacted_items))
