-- ===== src/Chats.antt =====
-- src/workload/chatgpt_chats.rs: the daily sync of conversations.
pub mod Client
pub mod Collect
pub mod Store
pub mod Sync
