-- ===== src/Reducer.antt =====
-- src/reducer.c: the table of tokens, the collection phase, the workers and the processing phase.
pub mod Table
pub mod Collect
pub mod Workers
pub mod Processing
