-- ===== src/App.antt =====
-- app/desktop/src: the desktop client, as far as messages that wait for their epoch go.
pub mod Messages
pub mod BufferProcessor
