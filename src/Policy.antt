-- ===== src/Policy.antt =====
-- internal/milter: what the end of a message does, from the policies to the answer and the updates.
pub mod State
pub mod Headers
pub mod Updates
pub mod Senders
pub mod Attachments
pub mod Inbound
pub mod Analysis
pub mod Commands
pub mod Finish
pub mod Story
pub mod Promises
pub mod Liveness
pub mod Sessions
