-- ===== src/Structs.antt =====
-- pkg/structs: the sorted unique list and the dependency graph.
pub mod Queue
pub mod Graph
