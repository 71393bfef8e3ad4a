-- ===== src/Graph/Settled.antt =====
-- That the tables, written row by row, settle as the dictionaries do (graph.py).
use token_terminator.Common.{
  ℕ, ◌+◌, String, ◌≡◌, refl, ap, sym, ◌∙◌, subst, List, [], ◌∷◌, ◌++◌, map, arith, length,
  length-append, any, str_eq, ok, Bool-cases, bind-ok, inl, inr,
}
use token_terminator.Json.{Value, Fields}
use token_terminator.Graph.Terms.{
  Node, Edge, State, identifier, put_node, put_edge, retire_edge, Snapshot, node_snapshot,
  edge_snapshot, settle,
}
use token_terminator.Graph.Steps.{step, simulate}
use token_terminator.Graph.Log.{
  Event, NodeRow, EdgeRow, Tables, load, upsert_node, upsert_edge, retire_row, event_row, log_event,
  store_entity, op_of, fields_of, persist, persist_all,
}

upsert_node-load :
    (n : Node) (seq : ℕ) (rs : List NodeRow)
    → map (λ (r : NodeRow). r.node) (upsert_node n seq rs)
      ≡ put_node n (map (λ (r : NodeRow). r.node) rs)
unfolding upsert_node put_node
upsert_node-load n seq [] = refl
upsert_node-load n seq (r ∷ rs) = elim (Bool-cases (str_eq r.node.node_id n.node_id)) [
  | inl same ↦ rw same refl
  | inr other ↦ rw other (ap (◌∷◌ r.node) (upsert_node-load n seq rs))
]

upsert_edge-load :
    (e : Edge) (seq : ℕ) (rs : List EdgeRow)
    → map (λ (r : EdgeRow). r.edge) (upsert_edge e seq rs)
      ≡ put_edge e (map (λ (r : EdgeRow). r.edge) rs)
unfolding upsert_edge put_edge
upsert_edge-load e seq [] = refl
upsert_edge-load e seq (r ∷ rs) = elim (Bool-cases (str_eq r.edge.edge_id e.edge_id)) [
  | inl same ↦ rw same refl
  | inr other ↦ rw other (ap (◌∷◌ r.edge) (upsert_edge-load e seq rs))
]

retire_row-load :
    (id : String) (seq : ℕ) (rs : List EdgeRow)
    → map (λ (r : EdgeRow). r.edge) (map (retire_row id seq) rs)
      ≡ map (retire_edge id) (map (λ (r : EdgeRow). r.edge) rs)
unfolding retire_row
retire_row-load id seq [] = refl
retire_row-load id seq (r ∷ rs) = ap (◌∷◌ (retire_edge id r.edge)) (retire_row-load id seq rs)

store_entity-load :
    (taken : Snapshot) (seq : ℕ) (db : Tables)
    → load (store_entity taken seq db) ≡ settle taken (load db)
unfolding load store_entity settle
store_entity-load (node_snapshot op fs n) seq db = elim (Bool-cases (str_eq op "NODE_RETIRE")) [
  | inl retire ↦
      rw retire
        (rw (upsert_node-load n seq db.nodes) (rw (retire_row-load n.node_id seq db.edges) refl))
  | inr other ↦ rw other (rw (upsert_node-load n seq db.nodes) refl)
]
store_entity-load (edge_snapshot op fs e) seq db = rw (upsert_edge-load e seq db.edges) refl

store_entity-events :
    (taken : Snapshot) (seq : ℕ) (db : Tables) → (store_entity taken seq db).events ≡ db.events
unfolding store_entity
store_entity-events (node_snapshot op fs n) seq db = refl
store_entity-events (edge_snapshot op fs e) seq db = refl

-- The ids of the log, in its order
abbrev pub ids_of : Tables → List String
ids_of db = map (λ (e : Event). e.event_id) db.events

map-append : {A B : Type 0} (f : A → B) (xs ys : List A) → map f (xs ++ ys) ≡ map f xs ++ map f ys
map-append f [] ys = refl
map-append f (x ∷ xs) ys = ap (◌∷◌ (f x)) (map-append f xs ys)

append_assoc : {A : Type 0} (xs ys zs : List A) → (xs ++ ys) ++ zs ≡ xs ++ (ys ++ zs)
append_assoc [] ys zs = refl
append_assoc (x ∷ xs) ys zs = ap (◌∷◌ x) (append_assoc xs ys zs)

pub append_nil : {A : Type 0} (xs : List A) → xs ++ [] ≡ xs
append_nil [] = refl
append_nil (x ∷ xs) = ap (◌∷◌ x) (append_nil xs)

log_event-ok :
    (session now op : String) (fs : Fields) (db logged : Tables) (id : String)
    → log_event session now op fs db ≡ ok (id, logged)
    → (load logged ≡ load db)
      × (length logged.events ≡ length db.events + 1)
      × (ids_of logged ≡ ids_of db ++ id ∷ [])
unfolding log_event load
log_event-ok session now op fs db logged id h =
    let (event_id, named, h1) = bind-ok (identifier "event_id" fs) _ (id, logged) h in
    elim (Bool-cases (any (λ e. str_eq e.event_id event_id) db.events)) [
      | inl known ↦ absurd (ground arith)
      | inr fresh ↦
          let row = event_row session now op event_id fs db.next_seq in
          let same : record db { events = db.events ++ row ∷ []; next_seq = db.next_seq + 1 }
              ≡ logged =
            ground arith in
          (
            subst (λ t. load t ≡ load db) same refl,
            subst (λ (t : Tables). length t.events ≡ length db.events + 1) same
                (length-append db.events (row ∷ [])),
            rw (ap ids_of (sym same)) (
                map-append (λ (e : Event). e.event_id) db.events (row ∷ [])
                ∙ ap (λ x. ids_of db ++ x ∷ []) (ground arith)),
          )
    ]

-- The log grows by one event, and the loaded tables are the settled state.
persist-load :
    (session now : String) (taken : Snapshot) (db after : Tables) (id : String)
    → persist session now taken db ≡ ok (id, after)
    → (load after ≡ settle taken (load db))
      × (length after.events ≡ length db.events + 1)
      × (ids_of after ≡ ids_of db ++ id ∷ [])
unfolding persist
persist-load session now taken db after id h =
    let ((event_id, logged), written, h1) =
      bind-ok (log_event session now (op_of taken) (fields_of taken) db) _ (id, after) h in
    let (same, longer, named) =
      log_event-ok session now (op_of taken) (fields_of taken) db logged event_id written in
    let stored : store_entity taken db.next_seq logged ≡ after = ground arith in
    (
      subst (λ t. load t ≡ settle taken (load db)) stored
          (store_entity-load taken db.next_seq logged ∙ ap (settle taken) same),
      subst (λ (t : Tables). length t.events ≡ length db.events + 1) stored
          (ap length (store_entity-events taken db.next_seq logged) ∙ longer),
      subst (λ (t : Tables). ids_of t ≡ ids_of db ++ id ∷ []) stored
          (ap (map (λ (e : Event). e.event_id)) (store_entity-events taken db.next_seq logged)
            ∙ named
            ∙ ap (λ x. ids_of db ++ x ∷ []) (ground arith)),
    )

-- Snapshots settled one after another.
abbrev settle_all : List Snapshot → State → State
settle_all [] st = st
settle_all (taken ∷ rest) st = settle_all rest (settle taken st)

pub persist_all-load :
    (session now : String) (taken : List Snapshot) (db after : Tables) (ids : List String)
    → persist_all session now taken db ≡ ok (ids, after)
    → (load after ≡ settle_all taken (load db))
      × (length after.events ≡ length db.events + length taken)
      × (length ids ≡ length taken)
      × (ids_of after ≡ ids_of db ++ ids)
unfolding persist_all
persist_all-load session now [] db after ids h =
    let same : db ≡ after = ground arith in
    (
      ap load (sym same),
      ap (λ (t : Tables). length t.events) (sym same) ∙ omega arith,
      ground arith,
      rw (ap ids_of (sym same))
          (sym (append_nil (ids_of db)) ∙ ap (λ xs. ids_of db ++ xs) (ground arith)),
    )
persist_all-load session now (taken ∷ rest) db after ids h =
    let ((event_id, stored), written, h1) =
      bind-ok (persist session now taken db) _ (ids, after) h in
    let ((event_ids, last), later, h2) =
      bind-ok (persist_all session now rest stored) _ (ids, after) h1 in
    let (settled, longer, logged) = persist-load session now taken db stored event_id written in
    let (all_settled, all_longer, counted, all_logged) =
      persist_all-load session now rest stored last event_ids later in
    let same : last ≡ after = ground arith in
    let listed : event_id ∷ event_ids ≡ ids = ground arith in
    (
      subst (λ t. load t ≡ settle_all rest (settle taken (load db))) same
          (all_settled ∙ ap (settle_all rest) settled),
      subst (λ (t : Tables). length t.events ≡ length db.events + length (taken ∷ rest)) same omega
          (arith, all_longer, longer),
      subst (λ (xs : List String). length xs ≡ length (taken ∷ rest)) listed omega (arith, counted),
      subst (λ (t : Tables). ids_of t ≡ ids_of db ++ ids) same
          (all_logged
            ∙ ap (λ xs. xs ++ event_ids) logged
            ∙ append_assoc (ids_of db) (event_id ∷ []) event_ids
            ∙ ap (λ xs. ids_of db ++ xs) listed),
    )

pub simulate-settle_all :
    (dumps : Value → String) (upper : String → String) (raws : List (Value × String))
    (st last : State) (taken : List Snapshot)
    → simulate dumps upper raws st ≡ ok (taken, last)
    → (last ≡ settle_all taken st) × (length taken ≡ length raws)
unfolding simulate
simulate-settle_all dumps upper [] st last taken h = (
  let listed : [] ≡ taken = ground arith in
      let same : st ≡ last = ground arith in
      subst (λ xs. last ≡ settle_all xs st) listed (sym same),
  ground arith,
)
simulate-settle_all dumps upper ((raw, fresh) ∷ raws) st last taken h =
    let (s, stepped, h1) = bind-ok (step dumps upper raw fresh st) _ (taken, last) h in
    let ((rest, end_state), later, h2) =
      bind-ok (simulate dumps upper raws (settle s st)) _ (taken, last) h1 in
    let (settled, counted) =
      simulate-settle_all dumps upper raws (settle s st) end_state rest later in
    let listed : s ∷ rest ≡ taken = ground arith in
    let same : end_state ≡ last = ground arith in
    (
      subst (λ xs. last ≡ settle_all xs st) listed (sym same ∙ settled),
      subst (λ (xs : List Snapshot). length xs ≡ length ((raw, fresh) ∷ raws)) listed omega
          (arith, counted),
    )
