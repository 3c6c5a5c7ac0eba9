-- ===== src/Server.antt =====
-- server.h and server.cpp: the coverage server, its corpus and its protocol.
pub mod Socket
pub mod Transfer
pub mod Messages
pub mod Corpus
pub mod Index
pub mod Updates
pub mod Wire
pub mod Log
pub mod Reports
pub mod ServeReport
pub mod SavedState
pub mod Restored
pub mod Connection
mod Examples
mod RestoredExamples
