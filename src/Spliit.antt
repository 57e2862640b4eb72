-- ===== src/Spliit.antt =====
-- internal/spliit/client.go: the parts of a Spliit group that the server reads, and how it finds
-- participants.
pub mod Model
pub mod Links
pub mod Participants
