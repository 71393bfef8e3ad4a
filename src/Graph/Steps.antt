-- ===== src/Graph/Steps.antt =====
-- One operation on the working state, and a batch of them: `_normalize_and_simulate` of graph.py.
use token_terminator.Common.{
  String, count, true, false, not, List, [], ◌∷◌, length, ltb, leb, if◌then◌else◌, is_some, str_eq,
  starts_with, strip, Result, ok, raise, graph_validation_error, ◌>>=◌, ◌>>◌, raise_if,
}
use token_terminator.Json.{
  Value, null, boolean, number, text, array, object, Fields, end, get, set, set_default, all_keys,
}
use token_terminator.Graph.Terms.{
  Node, Edge, State, max_nodes, max_edges, bounded_number, bounded_text, identifier, is_node_field,
  is_edge_field, node_allowed, edge_allowed, find_node, find_edge, active_node, active_edge,
  is_live, updated, Snapshot, node_snapshot, edge_snapshot, settle,
}

-- The parameters: `json.dumps` of a value, and `str.upper`, whose tables are Unicode's.
module _ (dumps : Value → String) (upper : String → String) where
  unfoldable pub check_metadata : Value → Result Fields
  check_metadata null = ok end
  check_metadata (object fs) =
      if ltb 20000 (count (dumps (object fs))) then raise graph_validation_error else ok fs
  check_metadata (boolean b) = raise graph_validation_error
  check_metadata (number q) = raise graph_validation_error
  check_metadata (text s) = raise graph_validation_error
  check_metadata (array xs) = raise graph_validation_error

  -- The operation's name and fields, up to its dispatch; `fresh` is the event id that `uuid4` gives.
  unfoldable pub normalize : Value → String → Result (String × Fields)
  normalize (object fs) fresh =
      if ltb 50000 (count (dumps (object fs)))
      then raise graph_validation_error
      else elim (get "op" fs) [
        | text s ↦
            let op = upper (strip s) in
            let named = set_default "event_id" (text fresh) (set "op" (text op) fs) in
            do
              event_id ← identifier "event_id" named
              if str_eq op "PROPOSITION_CREATE"
                  then ok (
                    "NODE_CREATE",
                    set_default "kind" (text "proposition") (set "op" (text "NODE_CREATE") named),
                  )
                  else ok (op, named)
        | _ ↦ raise graph_validation_error
      ]
  normalize null fresh = raise graph_validation_error
  normalize (boolean b) fresh = raise graph_validation_error
  normalize (number q) fresh = raise graph_validation_error
  normalize (text s) fresh = raise graph_validation_error
  normalize (array xs) fresh = raise graph_validation_error

  unfoldable pub create_node : String → Fields → State → Result Node
  create_node id fs st = do
    raise_if (is_some (find_node id st.nodes)) graph_validation_error
    raise_if (leb max_nodes (length st.nodes)) graph_validation_error
    kind ← identifier "kind" fs
    label ← bounded_text 2000 (get "label" fs)
    content ← bounded_text 20000 (get "content" fs)
    confidence ← bounded_number (get "confidence" fs)
    priority ← bounded_number (get "priority" fs)
    uncertainty ← bounded_number (get "uncertainty" fs)
    activation ← bounded_number (get "activation" fs)
    metadata ← check_metadata (get "metadata" fs)
    ok (record {
      node_id = id;
      kind = kind;
      label = label;
      content = content;
      active = true;
      confidence = confidence;
      priority = priority;
      uncertainty = uncertainty;
      activation = activation;
      metadata = metadata;
    })

  unfoldable pub update_node : String → Fields → State → Result Node
  update_node id fs st = do
    current ← active_node (find_node id st.nodes)
    raise_if (all_keys (λ k. not (is_node_field k)) fs) graph_validation_error
    kind ← updated "kind" fs (identifier "kind" fs) current.kind
    label ← updated "label" fs (bounded_text 2000 (get "label" fs)) current.label
    content ← updated "content" fs (bounded_text 20000 (get "content" fs)) current.content
    confidence ← updated "confidence" fs (bounded_number (get "confidence" fs)) current.confidence
    priority ← updated "priority" fs (bounded_number (get "priority" fs)) current.priority
    uncertainty ←
        updated "uncertainty" fs (bounded_number (get "uncertainty" fs)) current.uncertainty
    activation ← updated "activation" fs (bounded_number (get "activation" fs)) current.activation
    metadata ← updated "metadata" fs (check_metadata (get "metadata" fs)) current.metadata
    ok (record current {
      kind = kind;
      label = label;
      content = content;
      confidence = confidence;
      priority = priority;
      uncertainty = uncertainty;
      activation = activation;
      metadata = metadata;
    })

  unfoldable pub retire_node : String → State → Result Node
  retire_node id st = do
    current ← active_node (find_node id st.nodes)
    ok (record current { active = false })

  -- The branches on a node operation's name, for its `node_id`
  unfoldable pub node_after : String → String → Fields → State → Result Node
  node_after op id fs st =
      if str_eq op "NODE_CREATE"
      then create_node id fs st
      else if str_eq op "NODE_UPDATE"
      then update_node id fs st
      else if str_eq op "NODE_RETIRE"
      then retire_node id st
      else raise graph_validation_error

  unfoldable pub node_step : String → Fields → State → Result Snapshot
  node_step op fs st = do
    raise_if (not (all_keys (node_allowed op) fs)) graph_validation_error
    id ← identifier "node_id" fs
    n ← node_after op id fs st
    ok (node_snapshot op fs n)

  unfoldable pub create_edge : String → Fields → State → Result Edge
  create_edge id fs st = do
    raise_if (is_some (find_edge id st.edges)) graph_validation_error
    raise_if (leb max_edges (length st.edges)) graph_validation_error
    kind ← identifier "kind" fs
    source ← identifier "source" fs
    target ← identifier "target" fs
    raise_if (not (is_live source st.nodes)) graph_validation_error
    raise_if (not (is_live target st.nodes)) graph_validation_error
    confidence ← bounded_number (get "confidence" fs)
    metadata ← check_metadata (get "metadata" fs)
    ok (record {
      edge_id = id;
      kind = kind;
      source = source;
      target = target;
      active = true;
      confidence = confidence;
      metadata = metadata;
    })

  unfoldable pub update_edge : String → Fields → State → Result Edge
  update_edge id fs st = do
    current ← active_edge (find_edge id st.edges)
    raise_if (all_keys (λ k. not (is_edge_field k)) fs) graph_validation_error
    kind ← updated "kind" fs (identifier "kind" fs) current.kind
    source ← updated "source" fs (identifier "source" fs) current.source
    target ← updated "target" fs (identifier "target" fs) current.target
    confidence ← updated "confidence" fs (bounded_number (get "confidence" fs)) current.confidence
    metadata ← updated "metadata" fs (check_metadata (get "metadata" fs)) current.metadata
    raise_if (not (is_live source st.nodes)) graph_validation_error
    raise_if (not (is_live target st.nodes)) graph_validation_error
    ok (record current {
      kind = kind;
      source = source;
      target = target;
      confidence = confidence;
      metadata = metadata;
    })

  unfoldable pub retire_edge_of : String → State → Result Edge
  retire_edge_of id st = do
    current ← active_edge (find_edge id st.edges)
    ok (record current { active = false })

  unfoldable pub edge_after : String → String → Fields → State → Result Edge
  edge_after op id fs st =
      if str_eq op "EDGE_CREATE"
      then create_edge id fs st
      else if str_eq op "EDGE_UPDATE"
      then update_edge id fs st
      else if str_eq op "EDGE_RETIRE"
      then retire_edge_of id st
      else raise graph_validation_error

  unfoldable pub edge_step : String → Fields → State → Result Snapshot
  edge_step op fs st = do
    raise_if (not (all_keys (edge_allowed op) fs)) graph_validation_error
    id ← identifier "edge_id" fs
    e ← edge_after op id fs st
    ok (edge_snapshot op fs e)

  -- One round of the loop of `_normalize_and_simulate`.
  unfoldable pub step : Value → String → State → Result Snapshot
  step raw fresh st = do
    (op, fs) ← normalize raw fresh
    if starts_with op "NODE_"
        then node_step op fs st
        else if starts_with op "EDGE_"
        then edge_step op fs st
        else raise graph_validation_error

  -- `_normalize_and_simulate`: the snapshots, and the dictionaries as the loop leaves them.
  unfoldable pub simulate : List (Value × String) → State → Result (List Snapshot × State)
  simulate [] st = ok ([], st)
  simulate ((raw, fresh) ∷ raws) st = do
    taken ← step raw fresh st
    (rest, last) ← simulate raws (settle taken st)
    ok (taken ∷ rest, last)
