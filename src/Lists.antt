-- ===== src/Lists.antt =====
-- src/lists.rs: the intrusive lists of allocations, linked through the boxes themselves.
pub mod Chain
pub mod Buffer
pub mod Queue
pub mod Marking
pub mod Append
pub mod Remark
pub mod LinkedList
pub mod PossibleCycles
pub mod LinkedQueue
