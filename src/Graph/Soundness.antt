-- ===== src/Graph/Soundness.antt =====
-- What every accepted operation keeps: an active edge has active endpoints, and the graph is bounded.
use token_terminator.Common.{
  ◌+◌, ◌≤◌, String, ◌≡◌, refl, true, ◌&&◌, ◌||◌, List, [], ◌∷◌, map, arith, length, All, All-map,
  if◌then◌else◌, is_some, str_eq, eq_iff, ok, Bool-cases, bind-ok, subst, inl, inr,
}
use token_terminator.Json.{Value}
use token_terminator.Graph.Terms.{
  Node, Edge, State, find_node, find_edge, put_node, put_edge, is_live, Snapshot, node_snapshot,
  edge_snapshot, settle, retire_edge,
}
use token_terminator.Graph.Steps.{step, simulate}
use token_terminator.Graph.Accepted.{HasEnds, Accepted, step-Accepted}

pub record IsSound (st : State) : Type 0 where
  pub ends : All (HasEnds st.nodes) st.edges
  pub few_nodes : length st.nodes ≤ 1000
  pub few_edges : length st.edges ≤ 2000

is_live-put_node :
    (id : String) (n : Node) (ns : List Node)
    → is_live id (put_node n ns) ≡ (if str_eq n.node_id id then n.active else is_live id ns)
unfolding is_live put_node find_node
is_live-put_node id n [] = ground arith
is_live-put_node id n (m ∷ ms) = ground (
  arith,
  is_live-put_node id n ms,
  eq_iff m.node_id n.node_id,
  eq_iff m.node_id id,
  eq_iff n.node_id id,
)

length-put_node :
    (n : Node) (ns : List Node)
    → length (put_node n ns)
      ≡ (if is_some (find_node n.node_id ns) then length ns else length ns + 1)
unfolding put_node find_node
length-put_node n [] = omega arith
length-put_node n (m ∷ ms) = ground (arith, length-put_node n ms)

length-put_edge :
    (e : Edge) (es : List Edge)
    → length (put_edge e es)
      ≡ (if is_some (find_edge e.edge_id es) then length es else length es + 1)
unfolding put_edge find_edge
length-put_edge e [] = omega arith
length-put_edge e (f ∷ fs) = ground (arith, length-put_edge e fs)

length-map {ℓ κ} :
    {A : Type ℓ} {B : Type κ} (f : A → B) (xs : List A) → length (map f xs) ≡ length xs
length-map f [] = refl
length-map f (x ∷ xs) = omega (arith, length-map f xs)

All-put_edge {κ} :
    (P : Edge → Type κ) (e : Edge) (es : List Edge) → P e → All P es → All P (put_edge e es)
unfolding put_edge
All-put_edge P e [] here h = (here, tt)
All-put_edge P e (f ∷ fs) here h = elim (Bool-cases (str_eq f.edge_id e.edge_id)) [
  | inl same ↦ rw same (here, h.1)
  | inr other ↦ rw other (h.0, All-put_edge P e fs here h.1)
]

-- A node that stays active leaves every edge its ends.
put_node-HasEnds :
    (n : Node) (ns : List Node) (e : Edge)
    → n.active ≡ true
    → HasEnds ns e
    → HasEnds (put_node n ns) e
put_node-HasEnds n ns e alive ends active =
    ground (arith, is_live-put_node e.source n ns, is_live-put_node e.target n ns, ends active)

-- A node that is retired leaves the edges their ends that do not touch it, and retires the others.
retired-HasEnds :
    (n : Node) (ns : List Node) (e : Edge)
    → HasEnds ns e
    → HasEnds (put_node n ns) (retire_edge n.node_id e)
unfolding retire_edge
retired-HasEnds n ns e ends active =
    elim (Bool-cases (e.active && (str_eq e.source n.node_id || str_eq e.target n.node_id))) [
      | inl touched ↦ absurd (ground arith)
      | inr apart ↦
          let alive : e.active ≡ true = ground arith in
          ground (
            arith,
            is_live-put_node e.source n ns,
            is_live-put_node e.target n ns,
            ends alive,
            eq_iff n.node_id e.source,
            eq_iff n.node_id e.target,
            eq_iff e.source n.node_id,
            eq_iff e.target n.node_id,
          )
    ]

settle-IsSound : (st : State) (s : Snapshot) → IsSound st → Accepted st s → IsSound (settle s st)
unfolding settle
settle-IsSound st (node_snapshot op fs n) sound (alive, room) = record {
  ends = elim (Bool-cases (str_eq op "NODE_RETIRE")) [
    | inl retire ↦ rw retire (all_retired st.edges sound.ends)
    | inr other ↦ rw other (
        All-map (λ e. put_node-HasEnds n st.nodes e (ground (arith, alive, other))) st.edges
          sound.ends)
  ];
  few_nodes = ground (arith, length-put_node n st.nodes, sound.few_nodes, room);
  few_edges = ground (arith, length-map (retire_edge n.node_id) st.edges, sound.few_edges);
}
  where
    all_retired :
        (es : List Edge)
        → All (HasEnds st.nodes) es
        → All (HasEnds (put_node n st.nodes)) (map (retire_edge n.node_id) es)
    all_retired [] h = tt
    all_retired (e ∷ es) h = (retired-HasEnds n st.nodes e h.0, all_retired es h.1)
settle-IsSound st (edge_snapshot op fs e) sound (ends, room) = record {
  ends = All-put_edge (HasEnds st.nodes) e st.edges ends sound.ends;
  few_nodes = sound.few_nodes;
  few_edges = ground (arith, length-put_edge e st.edges, sound.few_edges, room);
}

-- A batch that is accepted keeps the working state sound: every active edge has two active endpoints,
-- retired nodes included whose edges were retired with them, and there are at most 1,000 nodes and 2,000
-- edges, retired ones counted.
pub simulate-IsSound :
    (dumps : Value → String) (upper : String → String) (raws : List (Value × String))
    (st last : State) (taken : List Snapshot)
    → IsSound st
    → simulate dumps upper raws st ≡ ok (taken, last)
    → IsSound last
unfolding simulate
simulate-IsSound dumps upper [] st last taken sound h =
    let same : st ≡ last = ground arith in subst IsSound same sound
simulate-IsSound dumps upper ((raw, fresh) ∷ raws) st last taken sound h =
    let (s, stepped, h1) = bind-ok (step dumps upper raw fresh st) _ (taken, last) h in
    let ((rest, end), later, h2) =
      bind-ok (simulate dumps upper raws (settle s st)) _ (taken, last) h1 in
    let same : end ≡ last = ground arith in
    subst IsSound same (
      simulate-IsSound dumps upper raws (settle s st) end rest
        (settle-IsSound st s sound (step-Accepted dumps upper raw fresh st s stepped)) later)
