-- ===== src/Tests.antt =====
-- Concrete inputs: a machine, threads that run alone, a counting world, and the theorems applied to
-- them.
mod Machine
mod Wire
mod Jobs
mod Counting
mod Blocks
mod Calm
mod Processes
mod Printing
mod Threads
mod Reduction
mod Mapping
mod Emission
mod Words
mod Files
mod Cleanup
mod Joining
