-- ===== src/Graph/Refinement.antt =====
-- That the tables implement the simulated dictionaries, and what the event log promises.
use token_terminator.Common.{
  ◌+◌, ◌≤◌, String, ◌≡◌, refl, ap, sym, ◌∙◌, subst, List, [], ◌∷◌, ◌++◌, arith, length, ltb, Result,
  ok, raise, Result-cases, bind-ok, inl, inr, ◌⊎◌, graph_validation_error, raise_if,
}
use token_terminator.Json.{Value}
use token_terminator.Graph.Terms.{Snapshot}
use token_terminator.Graph.Steps.{simulate}
use token_terminator.Graph.Soundness.{IsSound, simulate-IsSound}
use token_terminator.Graph.Log.{Tables, load, apply_in, apply, transaction}
use token_terminator.Graph.Settled.{ids_of, append_nil, persist_all-load, simulate-settle_all}

room_left :
    (raws : List (Value × String)) (db : Tables)
    → raise_if (ltb 100000 (length db.events + length raws)) graph_validation_error ≡ ok tt
    → length db.events + length raws ≤ 100000
room_left raws db room = ground arith

transaction-ok :
    {A : Type 0} (db after : Tables) (m : Result (A × Tables)) (a : A)
    → transaction db m ≡ (ok a, after)
    → m ≡ ok (a, after)
transaction-ok db after (ok (b, t)) a h = ground arith
transaction-ok db after (raise e) a h = absurd (ground arith)

module _ (dumps : Value → String) (upper : String → String) (session now : String) where
  abbrev Simulated : List (Value × String) → Tables → List String → Tables → Type 0
  Simulated raws db ids after =
      ((taken : List Snapshot) × (simulate dumps upper raws (load db) ≡ ok (taken, load after)))
      × (length after.events ≡ length db.events + length raws)
      × (length ids ≡ length raws)
      × (ids_of after ≡ ids_of db ++ ids)

  apply_in-simulate :
      (raws : List (Value × String)) (db after : Tables) (ids : List String)
      → apply_in dumps upper session now raws db ≡ ok (ids, after)
      → Simulated raws db ids after × ((raws ≡ []) ⊎ (length after.events ≤ 100000))
  unfolding apply_in simulate
  apply_in-simulate [] db after ids h =
      let same : db ≡ after = ground arith in
      (
        (
          ([], subst (λ t. simulate dumps upper [] (load db) ≡ ok ([], load t)) same refl),
          subst (λ (t : Tables). length t.events ≡ length db.events + 0) same omega arith,
          ground arith,
          subst (λ (t : Tables). ids_of t ≡ ids_of db ++ ids) same
              (sym (append_nil (ids_of db)) ∙ ap (λ xs. ids_of db ++ xs) (ground arith)),
        ),
        inl refl,
      )
  apply_in-simulate (raw ∷ raws) db after ids h =
      let (u, batch, h1) =
        bind-ok (raise_if (ltb 100 (length (raw ∷ raws))) graph_validation_error) _ (ids, after)
          h in
      let (w, room, h2) =
        bind-ok
          (raise_if (ltb 100000 (length db.events + length (raw ∷ raws))) graph_validation_error) _
          (ids, after) h1 in
      let ((taken, last), simulated, h3) =
        bind-ok (simulate dumps upper (raw ∷ raws) (load db)) _ (ids, after) h2 in
      let (settled, counted) =
        simulate-settle_all dumps upper (raw ∷ raws) (load db) last taken simulated in
      let (stored, longer, listed, logged) = persist_all-load session now taken db after ids h3 in
      let same : last ≡ load after = settled ∙ sym stored in
      (
        (
          (
            taken,
            subst (λ l. simulate dumps upper (raw ∷ raws) (load db) ≡ ok (taken, l)) same simulated,
          ),
          omega (arith, longer, counted),
          omega (arith, listed, counted),
          logged,
        ),
        inr (omega (arith, room_left (raw ∷ raws) db room, longer, counted)),
      )

  -- The tables implement the dictionaries: where `apply` returns, reloading the tables gives exactly the
  -- state that the simulation of the batch from the old tables ends in, and the log has one event more for
  -- each operation, with its event ids those from before and then the ids that are returned, in order.
  pub apply-simulate :
      (raws : List (Value × String)) (db after : Tables) (ids : List String)
      → apply dumps upper session now raws db ≡ (ok ids, after)
      → ((taken : List Snapshot) × (simulate dumps upper raws (load db) ≡ ok (taken, load after)))
        × (length after.events ≡ length db.events + length raws)
        × (length ids ≡ length raws)
        × (ids_of after ≡ ids_of db ++ ids)
  unfolding apply
  apply-simulate raws db after ids h =
      (apply_in-simulate raws db after ids
        (transaction-ok db after (apply_in dumps upper session now raws db) ids h)).0

  -- Whatever a batch holds, and whether it is accepted or refused, `apply` keeps the stored graph sound:
  -- its active edges have active endpoints, it has at most 1,000 nodes and 2,000 edges, and its log stays
  -- within 100,000 events.
  pub apply-IsSound :
      (raws : List (Value × String)) (db : Tables)
      → IsSound (load db)
      → length db.events ≤ 100000
      → let after = (apply dumps upper session now raws db).1 in
        IsSound (load after) × (length after.events ≤ 100000)
  unfolding apply apply_in
  apply-IsSound raws db sound few = elim (Result-cases (apply_in dumps upper session now raws db)) [
    | inr (e, failed) ↦ rw failed (sound, few)
    | inl ((ids, after), done) ↦
        let (((taken, simulated), longer, listed, logged), bounded) =
          apply_in-simulate raws db after ids done in
        rw done (
          simulate-IsSound dumps upper raws (load db) (load after) taken sound simulated,
          elim bounded [
            | inl none_given ↦ omega (arith, longer, ap length none_given, few)
            | inr within ↦ within
          ],
        )
  ]
