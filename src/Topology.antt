-- ===== src/Topology.antt =====
-- internal/topology/multigraph.go: the graph, its changes and its searches.
pub mod Examples
pub mod Graph
pub mod Linked
pub mod Search
