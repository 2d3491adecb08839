-- ===== src/Processed.antt =====
-- src/processed.cpp: the faces that a client has found itself, as a JSON payload. The JSON library is
-- a parameter: what `parse` accepts, and how its numbers are read. A failure is a value, with the
-- faces that the output vector holds at that point.
pub mod Wire
pub mod Parse
pub mod Shape
pub mod Validate
mod RoundTrip
mod Accepted
mod Clamped
mod Tests
