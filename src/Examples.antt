-- ===== src/Examples.antt =====
-- The theorems and the definitions at concrete inputs.
mod Wire
pub mod Segments
mod Fragments
pub mod Requests
pub mod Process
mod Streams
pub mod Loops
pub mod Answers
mod Records
mod Nodes
mod Starting
mod Devices
mod Threads
