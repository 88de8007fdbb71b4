-- ===== src/Text.antt =====
-- memcached/util.c and the front of memcached/proto_text.c: numbers and tokens of the text protocol.
-- A C string is the list of its bytes, without the closing 0.
pub mod Numbers
pub mod Tokens
mod Tests
