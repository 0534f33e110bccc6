-- ===== src/Event.antt =====
-- internal/event: the stream that carries events from the connection's goroutine to a subscriber.
pub mod Stream
