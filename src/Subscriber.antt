-- ===== src/Subscriber.antt =====
-- internal/pubsub/subscriber.go: one Subscribe stream for one topic.
pub mod Window
pub mod Delay
pub mod Stream
pub mod Flow
pub mod Run
