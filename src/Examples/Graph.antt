-- ===== src/Examples/Graph.antt =====
-- Tests of the working-state graph: two nodes, an edge between them, and the retirement of a node.
use token_terminator.Common.{
  ◌++◌, ◌+◌, ◌≤◌, String, ◌≡◌, refl, Bool, true, false, none, List, [], ◌∷◌, map, length, ok, raise,
  arith, is_space, lstrip_by, rstrip_by, rstrip, strip, graph_validation_error,
}
use token_terminator.Json.{
  Value, text, object, Fields, end, field, get, has, set, set_default, all_keys,
}
use token_terminator.Graph.Terms.{
  Node, Edge, State, bounded_number, bounded_text, has_control, check_identifier, is_node_field,
  is_edge_field, node_allowed, edge_allowed, find_node, find_edge, put_node, put_edge, is_live,
  Snapshot, node_snapshot, edge_snapshot, retire_edge, settle,
}
use token_terminator.Graph.Steps.{
  check_metadata, normalize, create_node, retire_node, node_after, node_step, create_edge,
  edge_after, edge_step, step, simulate,
}
use token_terminator.Graph.Log.{
  Event, Tables, load, export, apply, apply_in, persist_all, persist, log_event, store_entity,
  upsert_node, replay, replay_one, replay_in, find_event,
}
use token_terminator.Graph.Soundness.{IsSound}
use token_terminator.Graph.Settled.{ids_of}
use token_terminator.Graph.Refinement.{apply-simulate, apply-IsSound}
use token_terminator.Graph.Replay.{IsExportable, replay-export}

abbrev dumps : Value → String
dumps v = ""

abbrev upper : String → String
upper s = s

abbrev create : String → String → Fields
create event id =
    field "op" (text "NODE_CREATE")
      (field "event_id" (text event) (field "node_id" (text id) (field "kind" (text "fact") end)))

abbrev link : Fields
link = field "op" (text "EDGE_CREATE") (
    field "event_id" (text "e3") (
      field "edge_id" (text "ab") (
        field "kind" (text "supports")
          (field "source" (text "a") (field "target" (text "b") end)))))

abbrev retire : Fields
retire =
    field "op" (text "NODE_RETIRE") (field "event_id" (text "e4") (field "node_id" (text "a") end))

abbrev batch : List (Value × String)
batch =
    (object (create "e1" "a"), "")
    ∷ (object (create "e2" "b"), "")
    ∷ (object link, "")
    ∷ (object retire, "")
    ∷ []

abbrev node : String → Bool → Node
node id active = record {
  node_id = id;
  kind = "fact";
  label = "";
  content = "";
  active = active;
  confidence = none;
  priority = none;
  uncertainty = none;
  activation = none;
  metadata = end;
}

abbrev edge : Bool → Edge
edge active = record {
  edge_id = "ab";
  kind = "supports";
  source = "a";
  target = "b";
  active = active;
  confidence = none;
  metadata = end;
}

abbrev empty_state : State
empty_state = record { nodes = []; edges = [] }

abbrev last_state : State
last_state = record { nodes = node "a" false ∷ node "b" true ∷ []; edges = edge false ∷ [] }

abbrev batch_taken : List Snapshot
batch_taken =
    node_snapshot "NODE_CREATE" (create "e1" "a") (node "a" true)
    ∷ node_snapshot "NODE_CREATE" (create "e2" "b") (node "b" true)
    ∷ edge_snapshot "EDGE_CREATE" link (edge true)
    ∷ node_snapshot "NODE_RETIRE" retire (node "a" false)
    ∷ []

batch_simulated : simulate dumps upper batch empty_state ≡ ok (batch_taken, last_state)
unfolding simulate step normalize node_step edge_step node_after edge_after create_node retire_node
    create_edge check_metadata bounded_number bounded_text has_control check_identifier
    is_node_field is_edge_field node_allowed edge_allowed find_node find_edge put_node put_edge
    is_live retire_edge settle get has set set_default all_keys strip rstrip lstrip_by rstrip_by
    is_space
batch_simulated = refl

abbrev no_tables : Tables
no_tables = record { events = []; nodes = []; edges = []; next_seq = 1 }

abbrev first_event : Event
first_event = record {
  seq = 1;
  event_id = "e1";
  session_id = "s";
  op = "NODE_CREATE";
  entity_id = "a";
  operation = create "e1" "a";
  created_at = "t1";
}

abbrev one_node : Tables
one_node = record {
  events = first_event ∷ [];
  nodes = record { node = node "a" true; created_seq = 1; updated_seq = 1 } ∷ [];
  edges = [];
  next_seq = 2;
}

one_applied :
    apply dumps upper "s" "t1" ((object (create "e1" "a"), "") ∷ []) no_tables
    ≡ (ok ("e1" ∷ []), one_node)
unfolding apply apply_in persist_all persist log_event store_entity upsert_node load simulate step
    normalize node_step node_after create_node check_metadata bounded_number bounded_text
    has_control check_identifier is_node_field node_allowed find_node put_node settle get has set
    set_default all_keys strip rstrip lstrip_by rstrip_by is_space
one_applied = refl

apply-simulate_example :
    ((taken : List Snapshot) × (simulate dumps upper
          ((object (create "e1" "a"), "") ∷ [])
          (load no_tables)
        ≡ ok (taken, load one_node)))
    × (length one_node.events ≡ length no_tables.events + 1)
    × (length {A = String} ("e1" ∷ []) ≡ 1)
    × (ids_of one_node ≡ ids_of no_tables ++ "e1" ∷ [])
apply-simulate_example =
    apply-simulate dumps upper "s" "t1" ((object (create "e1" "a"), "") ∷ []) no_tables one_node
      ("e1" ∷ []) one_applied

no_tables-IsSound : IsSound (load no_tables)
unfolding load
no_tables-IsSound = record { ends = tt; few_nodes = omega arith; few_edges = omega arith }

apply-IsSound_example :
    let after = (apply dumps upper "s" "t1" batch no_tables).1 in
    IsSound (load after) × (length after.events ≤ 100000)
apply-IsSound_example =
    apply-IsSound dumps upper "s" "t1" batch no_tables no_tables-IsSound (omega arith)

first_event-IsExportable : IsExportable one_node first_event
unfolding find_event get check_identifier has_control strip rstrip lstrip_by rstrip_by is_space
first_event-IsExportable = record { filed = refl; named = refl; valid = refl }

replay-export_example :
    replay dumps upper "t2" (map export (first_event ∷ first_event ∷ [])) one_node
    ≡ (ok [], one_node)
replay-export_example =
    replay-export dumps upper "t2" (first_event ∷ first_event ∷ []) one_node
      (first_event-IsExportable, (first_event-IsExportable, tt))

-- An event whose id was given with a blank is logged without it, and what `events` exports then
-- conflicts with the log that it came from.
abbrev padded_event : Event
padded_event = record first_event { operation = create " e1" "a" }

abbrev payload : Value → String
payload (object fs) = elim (get "event_id" fs) [ text s ↦ s | _ ↦ "" ]
payload v = ""

padded_test :
    (replay payload upper "t2"
      (map export (padded_event ∷ []))
      (record one_node { events = padded_event ∷ [] })).0
    ≡ raise graph_validation_error
unfolding replay replay_one replay_in export find_event get set check_identifier has_control strip
    rstrip lstrip_by rstrip_by is_space
padded_test = refl
