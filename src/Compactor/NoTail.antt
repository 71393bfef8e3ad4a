-- ===== src/Compactor/NoTail.antt =====
-- With no recent turns to keep, `compact` looks for a turn past the last one.
use Prim.Native.Char.{Char}
use token_terminator.Common.{
  ℕ, zero, suc, ◌-◌, ◌≤◌, ◌<◌, String, count, ◌≡◌, refl, Bool, true, false, ◌||◌, some, List, [],
  ◌∷◌, arith, ltb, leb, length, Result, ok, raise, index_error,
}
use token_terminator.Json.{Number, Value, object, Items, Fields}
use token_terminator.Vault.Tables.{Vault}
use token_terminator.Compactor.Turns.{Mode, Compactor, mode_of, size, turn_starts, start_at}
use token_terminator.Compactor.Vaulting.{Session}
use token_terminator.Compactor.Request.{
  items_in, starts_turn, compact_items, compact_mode, compact_as, untouched, compact_object,
  compact_request,
}

start_at_end : (k : ℕ) (is : List ℕ) → length is ≤ k → start_at k is ≡ raise index_error
unfolding start_at
start_at_end k [] h = refl
start_at_end zero (i ∷ is) h = absurd (omega arith)
start_at_end (suc k) (i ∷ is) h = start_at_end k is (omega arith)

module _ (dumps compact : Value → String) (digest : String → String) (safe : Char → Bool)
    (equal : Value → Value → Bool) (shown : Value → String) (int_of : Value → Result Number)
    (cp : Compactor) (c : Session) (mode : Mode) where
  compact_items_no_tail :
      (xs : Items) (s : Vault)
      → cp.inline_recent_turns ≡ 0
      → 2 ≤ size xs
      → 0 < length (turn_starts (starts_turn mode) 0 xs)
      → compact_items dumps compact digest safe equal shown int_of cp c mode xs s
        ≡ (raise index_error, s)
  unfolding compact_items
  compact_items_no_tail xs s none_kept several turns =
      let starts = turn_starts (starts_turn mode) 0 xs in
      let on : (ltb (size xs) 2 || leb (length starts) cp.inline_recent_turns) ≡ false =
        ground arith in
      let past : start_at (length starts - cp.inline_recent_turns) starts ≡ raise index_error =
        start_at_end (length starts - cp.inline_recent_turns) starts (omega (arith, none_kept)) in
      rw (on, past) refl

  -- A compactor that is to keep no recent turn never compacts a conversation: on every request of two items
  -- or more that has a user message, it fails open, with the request and the vault as they were, since
  -- the cutoff is looked up one past the last turn.
  pub compact_request_no_tail :
      (fs : Fields) (s : Vault)
      → cp.inline_recent_turns ≡ 0
      → mode_of fs ≡ some mode
      → 2 ≤ size (items_in mode fs)
      → 0 < length (turn_starts (starts_turn mode) 0 (items_in mode fs))
      → compact_request dumps compact digest safe equal shown int_of cp c (object fs) s
        ≡ (ok (untouched (object fs) (count (dumps (object fs))) true), s)
  unfolding compact_request compact_object compact_as compact_mode
  compact_request_no_tail fs s none_kept known several turns =
      rw (known, compact_as, compact_items_no_tail (items_in mode fs) s none_kept several turns)
        refl
