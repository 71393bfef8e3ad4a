-- ===== src/Vault/Savings/Keys.antt =====
-- That a write of `request_metrics` keeps one row for a request.
use token_terminator.Common.{
  String, ◌≡◌, refl, Bool, false, List, [], ◌∷◌, arith, eq_iff, Bool-cases, inl, inr, any,
}
use token_terminator.Vault.Savings.{
  Metric, Measurement, same_request, update_compiled, upsert, set_final, update_final, IsSingle,
}

-- The keys of a table, as a predicate of keys, and of a table that a write leaves.
any-upsert :
    (measured : Bool) (new : Metric) (rows : List Metric) (s q : String)
    → same_request s q new ≡ false
    → any (same_request s q) (upsert measured new rows) ≡ any (same_request s q) rows
unfolding upsert update_compiled same_request
any-upsert measured new [] s q other = ground arith
any-upsert measured new (r ∷ rs) s q other = ground (arith, any-upsert measured new rs s q other)

any-update_final :
    (m : Measurement) (rows : List Metric) (s q : String)
    → any (same_request s q) (update_final m rows) ≡ any (same_request s q) rows
unfolding update_final set_final same_request
any-update_final m [] s q = refl
any-update_final m (r ∷ rs) s q = ground (arith, any-update_final m rs s q)

same_request_sym :
    (r n : Metric)
    → same_request n.session_id n.request_id r ≡ false
    → same_request r.session_id r.request_id n ≡ false
unfolding same_request
same_request_sym r n h = ground (
  arith,
  eq_iff r.session_id n.session_id,
  eq_iff n.session_id r.session_id,
  eq_iff r.request_id n.request_id,
  eq_iff n.request_id r.request_id,
)

keys-update_compiled :
    (measured : Bool) (new old : Metric)
    → ((update_compiled measured new old).session_id ≡ old.session_id)
      × ((update_compiled measured new old).request_id ≡ old.request_id)
unfolding update_compiled
keys-update_compiled measured new old = ground arith

pub upsert-IsSingle :
    (measured : Bool) (new : Metric) (rows : List Metric)
    → IsSingle rows
    → IsSingle (upsert measured new rows)
unfolding upsert
upsert-IsSingle measured new [] h = (refl, tt)
upsert-IsSingle measured new (r ∷ rs) h =
    elim (Bool-cases (same_request new.session_id new.request_id r)) [
      | inl same ↦
          let (session, request) = keys-update_compiled measured new r in
          rw same (rw (session, request) h.0, h.1)
      | inr other ↦ rw other (
        rw (any-upsert measured new rs r.session_id r.request_id (same_request_sym r new other))
            h.0,
        upsert-IsSingle measured new rs h.1,
      )
    ]

pub update_final-IsSingle :
    (m : Measurement) (rows : List Metric) → IsSingle rows → IsSingle (update_final m rows)
unfolding update_final set_final
update_final-IsSingle m [] h = tt
update_final-IsSingle m (r ∷ rs) h = elim (Bool-cases (same_request m.session_id m.request_id r)) [
  | inl same ↦
      rw same
        (rw (any-update_final m rs r.session_id r.request_id) h.0, update_final-IsSingle m rs h.1)
  | inr other ↦
      rw other
        (rw (any-update_final m rs r.session_id r.request_id) h.0, update_final-IsSingle m rs h.1)
]
