-- ===== src/Grammar.antt =====
-- mutators/grammar/grammar.h and grammar.cpp: the trees that a grammar generates, their text, and
-- the binary form in which they are kept as samples.
pub mod Binary
pub mod Writer
pub mod Reader
pub mod Tree
pub mod Encode
pub mod Decode
pub mod RoundTrip
pub mod Termination
pub mod Filter
pub mod Rules
pub mod Parser
pub mod Generate
mod Examples
