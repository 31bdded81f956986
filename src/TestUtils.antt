-- ===== src/TestUtils.antt =====
-- test_utils/: the doubles that the program's tests put in place of its stores, and their websocket
-- client.
pub mod Doubles
pub mod Client
