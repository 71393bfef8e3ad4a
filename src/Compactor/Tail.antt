-- ===== src/Compactor/Tail.antt =====
-- The recent turns reach the provider: what `compact` leaves of the items from the cutoff on.
use Prim.Native.Char.{Char}
use token_terminator.Common.{
  ℕ, zero, suc, ◌+◌, ◌-◌, ◌≤◌, String, ◌≡◌, refl, Bool, some, arith, leb, ok, bind-ok, Bool-cases,
  Result-cases, inl, inr, ◌⊎◌, sym, ap, ◌∙◌, subst,
}
use token_terminator.Common.Actions.{continue-value}
use token_terminator.Json.{Value, object, Items, nil, item, Fields, get, set}
use token_terminator.Vault.Tables.{Vault}
use token_terminator.Compactor.Turns.{Mode, Compactor, size, rest_items, append_items, is_user}
use token_terminator.Compactor.Vaulting.{Session, vault_items, vault_item}
use token_terminator.Compactor.Collapse.{
  Collapsing, no_preview, turn_body, after_turn, preview_turn, collapse_turn, collapse_step,
  collapse_loop, prefix_content,
}
use token_terminator.Compactor.Starts.{append_items_assoc, rest_items-rest_items, Holds, holds}

-- Vaulting changes no item from the cutoff on.
module _ (compact : Value → String) (digest : String → String) (safe : Char → Bool)
    (same : Value → Value → Bool) (shown : Value → String) (cp : Compactor) (c : Session) where
  pub vault_items-rest :
      (mode : Mode) (n : ℕ) (before xs ys : Items) (k : ℕ) (v : Vault)
      → (vault_items compact digest safe same shown cp c mode n before xs v).0 ≡ ok (ys, k)
      → rest_items n ys ≡ rest_items n xs
  unfolding vault_items rest_items
  vault_items-rest mode zero before xs ys k v h = ground arith
  vault_items-rest mode (suc n) before nil ys k v h = ground arith
  vault_items-rest mode (suc n) before (item x xs) ys k v h =
      let one = vault_item compact digest safe same shown cp c mode before x v in
      let ((y, m), done, h1) = continue-value one _ (ys, k) h in
      let ((zs, l), more, h2) =
        continue-value
          (vault_items compact digest safe same shown cp c mode n (append_items before (item y nil))
            xs one.1)
          _ (ys, k) h1 in
      let whole : ys ≡ item y zs = ground arith in
      rw whole (vault_items-rest mode n (append_items before (item y nil)) xs zs l one.1 more)

-- A list that ends with another
pub data EndsWith (tail xs : Items) : Type 0 where
  ends : (front : Items) → xs ≡ append_items front tail → EndsWith tail xs

pub EndsWith-front :
    (front tail xs : Items) → EndsWith tail xs → EndsWith tail (append_items front xs)
EndsWith-front front tail xs (ends more e) =
    ends (append_items front more) (rw e (sym (append_items_assoc front more tail)))

pub EndsWith-rest : (n : ℕ) (xs : Items) → EndsWith (rest_items n xs) xs
unfolding rest_items append_items
EndsWith-rest zero xs = ends nil refl
EndsWith-rest (suc n) nil = ends nil refl
EndsWith-rest (suc n) (item x xs) = elim (EndsWith-rest n xs) [
  | ends front e ↦ ends (item x front) (ap (item x) e)
]

-- What is left of the items from the cutoff on: they end the request, all of them or all but the first,
-- whose content has taken a block in front.
pub data Kept (tail xs : Items) : Type 0 where
  exact : EndsWith tail xs → Kept tail xs
  prefixed :
      (lead : Fields) (later : Items) (block : String) (content : Value)
      → tail ≡ item (object lead) later
      → prefix_content block (get "content" lead) ≡ some content
      → EndsWith (item (object (set "content" content lead)) later) xs
      → Kept tail xs

-- A turn ends no later than the next user message.
turn_body-size : (d : ℕ) (xs : Items) → Holds is_user d xs → size (turn_body xs) ≤ d
unfolding turn_body size rest_items
turn_body-size zero nil (holds v later at passes) = absurd (ground arith)
turn_body-size zero (item x xs) (holds v later at passes) = ground arith
turn_body-size (suc d) nil (holds v later at passes) = absurd (ground arith)
turn_body-size (suc d) (item x xs) (holds v later at passes) =
    ground (arith, turn_body-size d xs (holds v later at passes))

after_turn-rest : (xs : Items) → after_turn xs ≡ rest_items (size (turn_body xs)) xs
unfolding turn_body after_turn size rest_items
after_turn-rest nil = refl
after_turn-rest (item x xs) = ground (arith, after_turn-rest xs)

-- The loop's variables, while it runs below a cutoff that is a user message's index.
pub record InStep (cutoff : ℕ) (xs : Items) (c : Collapsing) : Type 0 where
  pub below : c.index ≤ cutoff
  pub rest : c.rest ≡ rest_items c.index xs

pub Items-cases : (xs : Items) → (xs ≡ nil) ⊎ ((x : Value) × (ys : Items) × (xs ≡ item x ys))
Items-cases nil = inl refl
Items-cases (item x ys) = inr (x, ys, refl)

rest_items_next :
    (i : ℕ) (x : Value) (ms xs : Items) → item x ms ≡ rest_items i xs → ms ≡ rest_items (suc i) xs
unfolding rest_items
rest_items_next i x ms xs at =
    let one : rest_items 1 (item x ms) ≡ rest_items 1 (rest_items i xs) = ap (rest_items 1) at in
    let two : rest_items 1 (rest_items i xs) ≡ rest_items (i + 1) xs =
      rest_items-rest_items 1 i xs in
    ground arith

Holds-after :
    (cutoff i : ℕ) (ms xs : Items)
    → i ≤ cutoff
    → ms ≡ rest_items i xs
    → Holds is_user cutoff xs
    → Holds is_user (cutoff - i) ms
Holds-after cutoff i ms xs le at (holds v later found passes) =
    let sum : rest_items (cutoff - i) (rest_items i xs) ≡ rest_items (i + (cutoff - i)) xs =
      rest_items-rest_items (cutoff - i) i xs in
    let same : i + (cutoff - i) ≡ cutoff = omega (arith, le) in
    holds v later (rw at (sum ∙ (rw same found))) passes

module _ (shown : Value → String) (cutoff : ℕ) (xs : Items) (user : Holds is_user cutoff xs) where
  collapse_turn-InStep :
      (m : Value) (ms : Items) (c d : Collapsing)
      → suc c.index ≤ cutoff
      → ms ≡ rest_items (suc c.index) xs
      → collapse_turn shown m ms c ≡ ok d
      → InStep cutoff xs d
  unfolding collapse_turn
  collapse_turn-InStep m ms c d less at h =
      let (p, previewed, made) =
        bind-ok (preview_turn shown (item m (turn_body ms)) no_preview) _ d h in
      let short : size (turn_body ms) ≤ cutoff - suc c.index =
        turn_body-size (cutoff - suc c.index) ms
          (Holds-after cutoff (suc c.index) ms xs less at user) in
      let index : d.index ≡ c.index + 1 + size (turn_body ms) = ground arith in
      let left : d.rest ≡ after_turn ms = ground arith in
      let sum : rest_items (size (turn_body ms)) (rest_items (suc c.index) xs)
          ≡ rest_items (suc c.index + size (turn_body ms)) xs =
        rest_items-rest_items (size (turn_body ms)) (suc c.index) xs in
      let same : suc c.index + size (turn_body ms) ≡ d.index = omega (arith, index) in
      record {
        below = omega (arith, short, index, less);
        rest =
            left
            ∙ (after_turn-rest ms
                ∙ (ap (rest_items (size (turn_body ms))) at
                    ∙ (sum ∙ ap (λ k. rest_items k xs) same)));
      }

  collapse_step-InStep :
      (m : Value) (ms : Items) (c d : Collapsing)
      → suc c.index ≤ cutoff
      → ms ≡ rest_items (suc c.index) xs
      → collapse_step shown m ms c ≡ ok d
      → InStep cutoff xs d
  unfolding collapse_step
  collapse_step-InStep m ms c d less at h = elim (Bool-cases (is_user m)) [
    | inl turn ↦ collapse_turn-InStep m ms c d less at (ground arith)
    | inr plain ↦
        let index : d.index ≡ suc c.index = ground arith in
        let left : d.rest ≡ ms = ground arith in
        record { below = omega (arith, index, less); rest = left ∙ (at ∙ rw index refl) }
  ]

  pub collapse_loop-InStep :
      (fuel stop : ℕ) (c d : Collapsing)
      → stop ≤ cutoff
      → InStep cutoff xs c
      → collapse_loop shown fuel stop c ≡ some (ok d)
      → InStep cutoff xs d
  unfolding collapse_loop
  collapse_loop-InStep zero stop c d le inside h = absurd (ground arith)
  collapse_loop-InStep (suc fuel) stop c d le inside h = elim (Bool-cases (leb stop c.index)) [
    | inl done ↦ let same : c ≡ d = ground arith in subst (InStep cutoff xs) same inside
    | inr more ↦ elim (Items-cases c.rest) [
      | inl empty ↦ let same : c ≡ d = ground arith in subst (InStep cutoff xs) same inside
      | inr (m, ms, found) ↦ elim (Result-cases (collapse_step shown m ms c)) [
        | inl (e, stepped) ↦
            collapse_loop-InStep fuel stop e d le
              (collapse_step-InStep m ms c e (ground arith)
                (rest_items_next c.index m ms xs (sym found ∙ inside.rest)) stepped)
              (ground arith)
        | inr (e, failed) ↦ absurd (ground arith)
      ]
    ]
  ]
