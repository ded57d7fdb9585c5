-- ===== src/Tests.antt =====
-- Runs of the model on small inputs, and the theorems at concrete inputs.
mod Markers
mod Thresholds
mod Linked
mod Boxes
mod Pointers
mod Graphs
mod Loops
mod Triggers
mod Values
mod Derives
