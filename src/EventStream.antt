-- ===== src/EventStream.antt =====
-- internal/plugin/jshelper/eventstream.js: the decoder of AWS EventStream frames that plugins call
-- as `util.eventstream.decode`.
pub mod Errors
pub mod Crc
pub mod Segments
pub mod Utf8
pub mod Headers
pub mod Frames
pub mod Iterator
pub mod Tests
