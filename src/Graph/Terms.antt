-- ===== src/Graph/Terms.antt =====
-- The nodes and the edges of the working state (graph.py), the checks of an operation's fields,
-- and the dictionaries.
use Prim.Native.Char.{code}
use Prim.Native.String as Chars
use token_terminator.Common.{
  ℕ, String, count, Bool, false, ◌&&◌, ◌||◌, not, Option, none, some, List, [], ◌∷◌, map, ltb, leb,
  ◌==◌, if◌then◌else◌, str_eq, strip, Result, ok, raise, graph_validation_error,
}
use token_terminator.Json.{
  Number, Value, null, boolean, number, text, array, object, Fields, get, has,
}

pub record Node : Type 0 where
  pub node_id : String
  pub kind : String
  pub label : String
  pub content : String
  pub active : Bool
  pub confidence : Option Number
  pub priority : Option Number
  pub uncertainty : Option Number
  pub activation : Option Number
  pub metadata : Fields

pub record Edge : Type 0 where
  pub edge_id : String
  pub kind : String
  pub source : String
  pub target : String
  pub active : Bool
  pub confidence : Option Number
  pub metadata : Fields

-- The two dictionaries, in insertion order; `active` is `status == "active"`.
pub record State : Type 0 where
  pub nodes : List Node
  pub edges : List Edge

abbrev pub max_nodes : ℕ
max_nodes = 1000

abbrev pub max_edges : ℕ
max_edges = 2000

-- 0.0 <= number <= 1.0
unfoldable pub in_unit : Number → Bool
in_unit q = (not q.negative || q.numerator == 0) && leb q.numerator q.denominator

unfoldable pub bounded_number : Value → Result (Option Number)
bounded_number null = ok none
bounded_number (number q) = if in_unit q then ok (some q) else raise graph_validation_error
bounded_number (boolean b) = raise graph_validation_error
bounded_number (text s) = raise graph_validation_error
bounded_number (array xs) = raise graph_validation_error
bounded_number (object fs) = raise graph_validation_error

unfoldable pub bounded_text : ℕ → Value → Result String
bounded_text maximum null = ok ""
bounded_text maximum (text s) = if ltb maximum (count s) then raise graph_validation_error else ok s
bounded_text maximum (boolean b) = raise graph_validation_error
bounded_text maximum (number q) = raise graph_validation_error
bounded_text maximum (array xs) = raise graph_validation_error
bounded_text maximum (object fs) = raise graph_validation_error

unfoldable pub has_control : String → Bool
has_control Chars.[] = false
has_control (Chars.◌∷◌ c s) = ltb (code c) 32 || code c == 127 || has_control s

unfoldable pub check_identifier : Value → Result String
check_identifier (text s) =
    if str_eq (strip s) "" || ltb 256 (count (strip s)) || has_control (strip s)
    then raise graph_validation_error
    else ok (strip s)
check_identifier null = raise graph_validation_error
check_identifier (boolean b) = raise graph_validation_error
check_identifier (number q) = raise graph_validation_error
check_identifier (array xs) = raise graph_validation_error
check_identifier (object fs) = raise graph_validation_error

abbrev pub identifier : String → Fields → Result String
identifier key fs = check_identifier (get key fs)

unfoldable pub is_node_field : String → Bool
is_node_field k =
    str_eq k "kind"
    || str_eq k "label"
    || str_eq k "content"
    || str_eq k "confidence"
    || str_eq k "priority"
    || str_eq k "uncertainty"
    || str_eq k "activation"
    || str_eq k "metadata"

unfoldable pub is_edge_field : String → Bool
is_edge_field k =
    str_eq k "kind"
    || str_eq k "source"
    || str_eq k "target"
    || str_eq k "confidence"
    || str_eq k "metadata"

-- The keys that an operation may have.
unfoldable pub node_allowed : String → String → Bool
node_allowed op k =
    str_eq k "op"
    || str_eq k "event_id"
    || str_eq k "node_id"
    || ((str_eq op "NODE_CREATE" || str_eq op "NODE_UPDATE") && is_node_field k)

unfoldable pub edge_allowed : String → String → Bool
edge_allowed op k =
    str_eq k "op"
    || str_eq k "event_id"
    || str_eq k "edge_id"
    || ((str_eq op "EDGE_CREATE" || str_eq op "EDGE_UPDATE") && is_edge_field k)

unfoldable pub find_node : String → List Node → Option Node
find_node id [] = none
find_node id (n ∷ ns) = if str_eq n.node_id id then some n else find_node id ns

unfoldable pub find_edge : String → List Edge → Option Edge
find_edge id [] = none
find_edge id (e ∷ es) = if str_eq e.edge_id id then some e else find_edge id es

-- nodes[node_id] = node
unfoldable pub put_node : Node → List Node → List Node
put_node n [] = n ∷ []
put_node n (m ∷ ms) = if str_eq m.node_id n.node_id then n ∷ ms else m ∷ put_node n ms

unfoldable pub put_edge : Edge → List Edge → List Edge
put_edge e [] = e ∷ []
put_edge e (f ∷ fs) = if str_eq f.edge_id e.edge_id then e ∷ fs else f ∷ put_edge e fs

-- current is not None and current["status"] == "active"
abbrev pub active_node : Option Node → Result Node
active_node none = raise graph_validation_error
active_node (some n) = if n.active then ok n else raise graph_validation_error

abbrev pub active_edge : Option Edge → Result Edge
active_edge none = raise graph_validation_error
active_edge (some e) = if e.active then ok e else raise graph_validation_error

-- source in nodes and nodes[source]["status"] == "active"
unfoldable pub is_live : String → List Node → Bool
is_live id ns = elim (find_node id ns) [ none ↦ false | some n ↦ n.active ]

-- The field where it is present, checked, or what stands there already.
abbrev pub updated : {A : Type 0} → String → Fields → Result A → A → Result A
updated key fs checked current = if has key fs then checked else ok current

-- An operation that was accepted, with its fields and the entity as it is after it.
pub data Snapshot : Type 0 where
  node_snapshot : String → Fields → Node → Snapshot
  edge_snapshot : String → Fields → Edge → Snapshot

-- A retired node takes its active edges along.
unfoldable pub retire_edge : String → Edge → Edge
retire_edge id e =
    if e.active && (str_eq e.source id || str_eq e.target id)
    then record e { active = false }
    else e

-- What an accepted operation leaves in the dictionaries.
unfoldable pub settle : Snapshot → State → State
settle (node_snapshot op fs n) st = record {
  nodes = put_node n st.nodes;
  edges = if str_eq op "NODE_RETIRE" then map (retire_edge n.node_id) st.edges else st.edges;
}
settle (edge_snapshot op fs e) st = record st { edges = put_edge e st.edges }
