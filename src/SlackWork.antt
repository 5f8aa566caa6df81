-- ===== src/SlackWork.antt =====
-- internal/store/postgres/slack_message_work.go: the queue of accepted Slack messages.
pub mod Rows
pub mod Queue
pub mod Worker
pub mod Machine
pub mod Moves
pub mod Refined
pub mod Completed
mod Tests
