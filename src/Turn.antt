-- ===== src/Turn.antt =====
-- One assistant turn: Finalize, findResumeSessionID, buildConversationHistory, buildExecuteRequest
-- and executeAndPersist of apps/cc-tunnel/internal/api/message_service.go; the title that a turn
-- gives its conversation, of title.go.
pub mod History
pub mod Persist
pub mod Resume
pub mod Writes
pub mod Apply
pub mod Title
pub mod Session
