-- ===== src/Graph.antt =====
-- The working-state graph, `WorkingStateGraph` of src/rtk_hermes_plus/graph.py.
pub mod Terms
pub mod Steps
pub mod Accepted
pub mod Soundness
pub mod Settled
pub mod Log
pub mod Refinement
pub mod Replay
