-- ===== src/Graph/Accepted.antt =====
-- What the checks of an accepted operation have shown (graph.py).
use token_terminator.Common.{
  ◌<◌, String, ◌≡◌, true, not, some, List, [], ◌∷◌, arith, length, is_some, str_eq, eq_iff,
  starts_with, ok, Bool-cases, Option-cases, bind-ok, subst, inl, inr, ◌⊎◌, graph_validation_error,
  raise_if,
}
use token_terminator.Json.{Value, Fields, all_keys}
use token_terminator.Graph.Terms.{
  Node, Edge, State, find_node, find_edge, is_live, identifier, node_allowed, edge_allowed,
  Snapshot, node_snapshot, edge_snapshot,
}
use token_terminator.Graph.Steps.{
  normalize, node_after, edge_after, create_node, update_node, retire_node, node_step, create_edge,
  update_edge, retire_edge_of, edge_step, step,
}

abbrev pub HasEnds : List Node → Edge → Type 0
HasEnds ns e = e.active ≡ true → (is_live e.source ns ≡ true) × (is_live e.target ns ≡ true)

-- What is found has the id that was asked for, and so is found under its own.
find_node_self :
    (id : String) (n : Node) (ns : List Node)
    → find_node id ns ≡ some n
    → is_some (find_node n.node_id ns) ≡ true
unfolding find_node
find_node_self id n [] h = absurd (ground arith)
find_node_self id n (m ∷ ms) h = ground (
  arith,
  find_node_self id n ms,
  eq_iff m.node_id id,
  eq_iff m.node_id n.node_id,
  eq_iff n.node_id n.node_id,
)

find_edge_self :
    (id : String) (e : Edge) (es : List Edge)
    → find_edge id es ≡ some e
    → is_some (find_edge e.edge_id es) ≡ true
unfolding find_edge
find_edge_self id e [] h = absurd (ground arith)
find_edge_self id e (f ∷ fs) h = ground (
  arith,
  find_edge_self id e fs,
  eq_iff f.edge_id id,
  eq_iff f.edge_id e.edge_id,
  eq_iff e.edge_id e.edge_id,
)

-- There is room for an entity: it replaces one, or the bound is not reached.
abbrev NodeRoom : State → Node → Type 0
NodeRoom st n = (is_some (find_node n.node_id st.nodes) ≡ true) ⊎ (length st.nodes < 1000)

abbrev EdgeRoom : State → Edge → Type 0
EdgeRoom st e = (is_some (find_edge e.edge_id st.edges) ≡ true) ⊎ (length st.edges < 2000)

-- What the checks of an operation have shown.
abbrev pub Accepted : State → Snapshot → Type 0
Accepted st (node_snapshot op fs n) =
    ((n.active ≡ true) ⊎ (str_eq op "NODE_RETIRE" ≡ true)) × NodeRoom st n
Accepted st (edge_snapshot op fs e) = HasEnds st.nodes e × EdgeRoom st e

module _ (dumps : Value → String) (upper : String → String) where
  create_node-ok :
      (id : String) (fs : Fields) (st : State) (n : Node)
      → create_node dumps upper id fs st ≡ ok n
      → (n.active ≡ true) × (length st.nodes < 1000)
  unfolding create_node
  create_node-ok id fs st n h = ground arith

  update_node-ok :
      (id : String) (fs : Fields) (st : State) (n : Node)
      → update_node dumps upper id fs st ≡ ok n
      → (n.active ≡ true) × (is_some (find_node n.node_id st.nodes) ≡ true)
  unfolding update_node
  update_node-ok id fs st n h = elim (Option-cases (find_node id st.nodes)) [
    | inl absent ↦ absurd (ground arith)
    | inr (c, found) ↦ let self = find_node_self id c st.nodes found in ground arith
  ]

  retire_node-ok :
      (id : String) (st : State) (n : Node)
      → retire_node dumps upper id st ≡ ok n
      → is_some (find_node n.node_id st.nodes) ≡ true
  unfolding retire_node
  retire_node-ok id st n h = elim (Option-cases (find_node id st.nodes)) [
    | inl absent ↦ absurd (ground arith)
    | inr (c, found) ↦ let self = find_node_self id c st.nodes found in ground arith
  ]

  create_edge-ok :
      (id : String) (fs : Fields) (st : State) (e : Edge)
      → create_edge dumps upper id fs st ≡ ok e
      → HasEnds st.nodes e × (length st.edges < 2000)
  unfolding create_edge
  create_edge-ok id fs st e h = (λ alive. ground arith, ground arith)

  update_edge-ok :
      (id : String) (fs : Fields) (st : State) (e : Edge)
      → update_edge dumps upper id fs st ≡ ok e
      → HasEnds st.nodes e × (is_some (find_edge e.edge_id st.edges) ≡ true)
  unfolding update_edge
  update_edge-ok id fs st e h = elim (Option-cases (find_edge id st.edges)) [
    | inl absent ↦ absurd (ground arith)
    | inr (c, found) ↦
        let self = find_edge_self id c st.edges found in (λ alive. ground arith, ground arith)
  ]

  retire_edge_of-ok :
      (id : String) (st : State) (e : Edge)
      → retire_edge_of dumps upper id st ≡ ok e
      → HasEnds st.nodes e × (is_some (find_edge e.edge_id st.edges) ≡ true)
  unfolding retire_edge_of
  retire_edge_of-ok id st e h = elim (Option-cases (find_edge id st.edges)) [
    | inl absent ↦ absurd (ground arith)
    | inr (c, found) ↦
        let self = find_edge_self id c st.edges found in
        (λ alive. absurd (ground arith), ground arith)
  ]

  node_after-Accepted :
      (op id : String) (fs : Fields) (st : State) (n : Node)
      → node_after dumps upper op id fs st ≡ ok n
      → Accepted st (node_snapshot op fs n)
  unfolding node_after
  node_after-Accepted op id fs st n h = elim (Bool-cases (str_eq op "NODE_CREATE")) [
    | inl create ↦
        let (alive, room) = create_node-ok id fs st n (ground arith) in (inl alive, inr room)
    | inr other ↦ elim (Bool-cases (str_eq op "NODE_UPDATE")) [
      | inl update ↦
          let (alive, found) = update_node-ok id fs st n (ground arith) in (inl alive, inl found)
      | inr rest ↦ elim (Bool-cases (str_eq op "NODE_RETIRE")) [
        | inl retire ↦ (inr retire, inl (retire_node-ok id st n (ground arith)))
        | inr unknown ↦ absurd (ground arith)
      ]
    ]
  ]

  edge_after-Accepted :
      (op id : String) (fs : Fields) (st : State) (e : Edge)
      → edge_after dumps upper op id fs st ≡ ok e
      → Accepted st (edge_snapshot op fs e)
  unfolding edge_after
  edge_after-Accepted op id fs st e h = elim (Bool-cases (str_eq op "EDGE_CREATE")) [
    | inl create ↦ let (ends, room) = create_edge-ok id fs st e (ground arith) in (ends, inr room)
    | inr other ↦ elim (Bool-cases (str_eq op "EDGE_UPDATE")) [
      | inl update ↦
          let (ends, found) = update_edge-ok id fs st e (ground arith) in (ends, inl found)
      | inr rest ↦ elim (Bool-cases (str_eq op "EDGE_RETIRE")) [
        | inl retire ↦
            let (ends, found) = retire_edge_of-ok id st e (ground arith) in (ends, inl found)
        | inr unknown ↦ absurd (ground arith)
      ]
    ]
  ]

  node_step-Accepted :
      (op : String) (fs : Fields) (st : State) (s : Snapshot)
      → node_step dumps upper op fs st ≡ ok s
      → Accepted st s
  unfolding node_step
  node_step-Accepted op fs st s h =
      let (u, allowed, h1) =
        bind-ok (raise_if (not (all_keys (node_allowed op) fs)) graph_validation_error) _ s h in
      let (id, named, h2) = bind-ok (identifier "node_id" fs) _ s h1 in
      let (n, taken, h3) = bind-ok (node_after dumps upper op id fs st) _ s h2 in
      let same : node_snapshot op fs n ≡ s = ground arith in
      subst (Accepted st) same (node_after-Accepted op id fs st n taken)

  edge_step-Accepted :
      (op : String) (fs : Fields) (st : State) (s : Snapshot)
      → edge_step dumps upper op fs st ≡ ok s
      → Accepted st s
  unfolding edge_step
  edge_step-Accepted op fs st s h =
      let (u, allowed, h1) =
        bind-ok (raise_if (not (all_keys (edge_allowed op) fs)) graph_validation_error) _ s h in
      let (id, named, h2) = bind-ok (identifier "edge_id" fs) _ s h1 in
      let (e, taken, h3) = bind-ok (edge_after dumps upper op id fs st) _ s h2 in
      let same : edge_snapshot op fs e ≡ s = ground arith in
      subst (Accepted st) same (edge_after-Accepted op id fs st e taken)

  pub step-Accepted :
      (raw : Value) (fresh : String) (st : State) (s : Snapshot)
      → step dumps upper raw fresh st ≡ ok s
      → Accepted st s
  unfolding step
  step-Accepted raw fresh st s h =
      let ((op, fs), known, h1) = bind-ok (normalize dumps upper raw fresh) _ s h in
      elim (Bool-cases (starts_with op "NODE_")) [
        | inl node ↦ node_step-Accepted op fs st s (ground arith)
        | inr other ↦ elim (Bool-cases (starts_with op "EDGE_")) [
          | inl edge ↦ edge_step-Accepted op fs st s (ground arith)
          | inr unknown ↦ absurd (ground arith)
        ]
      ]
