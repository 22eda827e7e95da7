-- ===== src/Protocol.antt =====
-- src/protocol.c and src/protocol.h: the messages between the three processes.
pub mod Stream
pub mod Headers
pub mod Pair
pub mod Results
pub mod Lines
pub mod Input
pub mod Ends
