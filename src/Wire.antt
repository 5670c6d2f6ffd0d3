-- ===== src/Wire.antt =====
-- internal/milter/protocol.go: the frames of the Milter protocol and the payloads of its commands.
-- A payload is a list of bytes; a string result is the same list.
pub mod Command
pub mod Frame
pub mod Reply
pub mod Payload
pub mod Macros
