-- ===== src/Graph/Log.antt =====
-- The graph's tables and its event log (graph.py): `apply`, `events` and `replay`. The JSON columns
-- are kept decoded; two payloads are compared as the texts that `_json` writes.
use token_terminator.Common.{
  ℕ, ◌+◌, String, ◌&&◌, ◌||◌, Option, none, some, List, [], ◌∷◌, ◌++◌, map, length, any, ltb,
  if◌then◌else◌, str_eq, Result, ok, raise, graph_validation_error, integrity_error, ◌>>=◌, ◌>>◌,
  raise_if,
}
use token_terminator.Json.{Value, text, object, Fields, get, set}
use token_terminator.Graph.Terms.{
  Node, Edge, State, identifier, retire_edge, Snapshot, node_snapshot, edge_snapshot,
}
use token_terminator.Graph.Steps.{simulate}

-- A row of `graph_events`; `operation` is its `payload_json`.
pub record Event : Type 0 where
  pub seq : ℕ
  pub event_id : String
  pub session_id : String
  pub op : String
  pub entity_id : String
  pub operation : Fields
  pub created_at : String

-- A row of `graph_nodes`.
pub record NodeRow : Type 0 where
  pub node : Node
  pub created_seq : ℕ
  pub updated_seq : ℕ

-- A row of `graph_edges`.
pub record EdgeRow : Type 0 where
  pub edge : Edge
  pub created_seq : ℕ
  pub updated_seq : ℕ

-- The three tables; `next_seq` is what AUTOINCREMENT gives next.
pub record Tables : Type 0 where
  pub events : List Event
  pub nodes : List NodeRow
  pub edges : List EdgeRow
  pub next_seq : ℕ

-- `_load_state`
unfoldable pub load : Tables → State
load db = record { nodes = map (λ r. r.node) db.nodes; edges = map (λ r. r.edge) db.edges }

-- INSERT INTO graph_nodes … ON CONFLICT(node_id) DO UPDATE SET all but created_seq
unfoldable pub upsert_node : Node → ℕ → List NodeRow → List NodeRow
upsert_node n seq [] = record { node = n; created_seq = seq; updated_seq = seq } ∷ []
upsert_node n seq (r ∷ rs) =
    if str_eq r.node.node_id n.node_id
    then record { node = n; created_seq = r.created_seq; updated_seq = seq } ∷ rs
    else r ∷ upsert_node n seq rs

unfoldable pub upsert_edge : Edge → ℕ → List EdgeRow → List EdgeRow
upsert_edge e seq [] = record { edge = e; created_seq = seq; updated_seq = seq } ∷ []
upsert_edge e seq (r ∷ rs) =
    if str_eq r.edge.edge_id e.edge_id
    then record { edge = e; created_seq = r.created_seq; updated_seq = seq } ∷ rs
    else r ∷ upsert_edge e seq rs

-- UPDATE graph_edges SET status='retired', updated_seq=? WHERE status='active' AND (source=? OR target=?)
unfoldable pub retire_row : String → ℕ → EdgeRow → EdgeRow
retire_row id seq r = record {
  edge = retire_edge id r.edge;
  created_seq = r.created_seq;
  updated_seq =
      if r.edge.active && (str_eq r.edge.source id || str_eq r.edge.target id)
      then seq
      else r.updated_seq;
}

-- operation.get("node_id") or operation.get("edge_id"), of an operation that was accepted
abbrev pub entity_id_of : Fields → String
entity_id_of fs = elim (get "node_id" fs) [
  | text s ↦ s
  | _ ↦ elim (get "edge_id" fs) [ text s ↦ s | _ ↦ "" ]
]

unfoldable pub find_event : String → List Event → Option Event
find_event id [] = none
find_event id (e ∷ es) = if str_eq e.event_id id then some e else find_event id es

-- The columns that the INSERT of an event writes.
abbrev pub event_row : String → String → String → String → Fields → ℕ → Event
event_row session now op event_id fs seq = record {
  seq = seq;
  event_id = event_id;
  session_id = session;
  op = op;
  entity_id = entity_id_of fs;
  operation = fs;
  created_at = now;
}

-- INSERT INTO graph_events, whose event ids are unique.
unfoldable pub log_event : String → String → String → Fields → Tables → Result (String × Tables)
log_event session now op fs db = do
  event_id ← identifier "event_id" fs
  raise_if (any (λ e. str_eq e.event_id event_id) db.events) integrity_error
  ok (
    event_id,
    record db {
      events = db.events ++ event_row session now op event_id fs db.next_seq ∷ [];
      next_seq = db.next_seq + 1;
    },
  )

-- The tables once the entity of a snapshot is written, under its event's `seq`.
unfoldable pub store_entity : Snapshot → ℕ → Tables → Tables
store_entity (node_snapshot op fs n) seq db = record db {
  nodes = upsert_node n seq db.nodes;
  edges = if str_eq op "NODE_RETIRE" then map (retire_row n.node_id seq) db.edges else db.edges;
}
store_entity (edge_snapshot op fs e) seq db = record db { edges = upsert_edge e seq db.edges }

abbrev pub op_of : Snapshot → String
op_of (node_snapshot op fs n) = op
op_of (edge_snapshot op fs e) = op

abbrev pub fields_of : Snapshot → Fields
fields_of (node_snapshot op fs n) = fs
fields_of (edge_snapshot op fs e) = fs

-- One round of the loop of `apply`.
unfoldable pub persist : String → String → Snapshot → Tables → Result (String × Tables)
persist session now taken db = do
  (event_id, logged) ← log_event session now (op_of taken) (fields_of taken) db
  ok (event_id, store_entity taken db.next_seq logged)

unfoldable pub persist_all :
    String → String → List Snapshot → Tables → Result (List String × Tables)
persist_all session now [] db = ok ([], db)
persist_all session now (taken ∷ rest) db = do
  (event_id, stored) ← persist session now taken db
  (event_ids, last) ← persist_all session now rest stored
  ok (event_id ∷ event_ids, last)

-- A write transaction: what it returns with its tables, or the tables as they were.
abbrev pub transaction : {A : Type 0} → Tables → Result (A × Tables) → Result A × Tables
transaction db (ok (a, after)) = (ok a, after)
transaction db (raise e) = (raise e, db)

-- An event as `events` exports it, less its `session_id`, which stands beside it.
pub record Exported : Type 0 where
  pub session : String
  pub operation : Fields

unfoldable pub export : Event → Exported
export e = record {
  session = e.session_id;
  operation = set "event_id" (text e.event_id) e.operation;
}

module _ (dumps : Value → String) (upper : String → String) where
  -- `apply` inside a connection, on operations with the ids that `uuid4` would give them
  unfoldable pub apply_in :
      String → String → List (Value × String) → Tables → Result (List String × Tables)
  apply_in session now [] db = ok ([], db)
  apply_in session now (raw ∷ raws) db = do
    raise_if (ltb 100 (length (raw ∷ raws))) graph_validation_error
    raise_if (ltb 100000 (length db.events + length (raw ∷ raws))) graph_validation_error
    (taken, last) ← simulate dumps upper (raw ∷ raws) (load db)
    persist_all session now taken db

  unfoldable pub apply :
      String → String → List (Value × String) → Tables → Result (List String) × Tables
  apply session now raws db = transaction db (apply_in session now raws db)

  -- One round of the loop of `replay`: the event is known, and the same, or it is applied.
  unfoldable pub replay_one :
      String → Exported → Option Event → Tables → Result (List String × Tables)
  replay_one now e none db = apply_in e.session now ((object e.operation, "") ∷ []) db
  replay_one now e (some known) db =
      if str_eq known.session_id e.session
        && str_eq (dumps (object known.operation)) (dumps (object e.operation))
      then ok ([], db)
      else raise graph_validation_error

  -- The loop of `replay`
  unfoldable pub replay_in : String → List Exported → Tables → Result (List String × Tables)
  replay_in now [] db = ok ([], db)
  replay_in now (e ∷ es) db = do
    event_id ← identifier "event_id" e.operation
    (first, stored) ← replay_one now e (find_event event_id db.events) db
    (others, last) ← replay_in now es stored
    ok (first ++ others, last)

  unfoldable pub replay : String → List Exported → Tables → Result (List String) × Tables
  replay now es db = transaction db (replay_in now es db)
