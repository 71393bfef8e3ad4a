-- ===== src/Graph/Replay.antt =====
-- What `events` exports can be replayed.
use token_terminator.Common.{
  String, ◌≡◌, refl, ap, some, List, [], ◌∷◌, map, arith, All, str_eq, eq_refl, ok, Bool-cases, inl,
  inr,
}
use token_terminator.Json.{Value, text, object, Fields, end, field, get, set}
use token_terminator.Graph.Terms.{check_identifier, identifier}
use token_terminator.Graph.Log.{Event, Tables, find_event, export, replay_one, replay_in, replay}

-- An event of the log whose id was given without blanks around it.
pub record IsExportable (db : Tables) (e : Event) : Type 0 where
  pub filed : find_event e.event_id db.events ≡ some e
  pub named : get "event_id" e.operation ≡ text e.event_id
  pub valid : check_identifier (text e.event_id) ≡ ok e.event_id

set-get : (key s : String) (fs : Fields) → get key fs ≡ text s → set key (text s) fs ≡ fs
unfolding get set
set-get key s end h = absurd (ground arith)
set-get key s (field k v rest) h = elim (Bool-cases (str_eq k key)) [
  | inl here ↦ rw here (ap (λ x. field k x rest) (ground arith))
  | inr later ↦ rw later (ap (field k v) (set-get key s rest (ground arith)))
]

module _ (dumps : Value → String) (upper : String → String) (now : String) where
  replay_one-export :
      (e : Event) (db : Tables)
      → IsExportable db e
      → (identifier "event_id" (export e).operation ≡ ok e.event_id)
        × (replay_one dumps upper now (export e) (find_event e.event_id db.events) db ≡ ok ([], db))
  unfolding replay_one export
  replay_one-export e db h =
      let same = set-get "event_id" e.event_id e.operation h.named in
      (
        rw same (rw h.named h.valid),
        rw h.filed (rw same (rw (eq_refl e.session_id, eq_refl (dumps (object e.operation))) refl)),
      )

  replay_in-export :
      (es : List Event) (db : Tables)
      → All (IsExportable db) es
      → replay_in dumps upper now (map export es) db ≡ ok ([], db)
  unfolding replay_in
  replay_in-export [] db h = refl
  replay_in-export (e ∷ es) db h =
      let (named, known) = replay_one-export e db h.0 in
      rw named (rw known (rw (replay_in-export es db h.1) refl))

  -- Replaying, onto the tables that hold them, any events that were exported from them accepts nothing and
  -- changes nothing, however often and in whatever order, if each event's id was given without blanks
  -- around it.
  pub replay-export :
      (es : List Event) (db : Tables)
      → All (IsExportable db) es
      → replay dumps upper now (map export es) db ≡ (ok [], db)
  unfolding replay
  replay-export es db h = rw (replay_in-export es db h) refl
