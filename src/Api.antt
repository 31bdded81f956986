-- ===== src/Api.antt =====
-- The package api: error values, the structures of requests and responses, the messages of the
-- websocket with their JSON, and the translation to and from gRPC's messages.
pub mod Errors
pub mod Effects
pub mod Structs
pub mod Reports
pub mod Translation
pub mod Json
pub mod Maps
pub mod WsMessages
pub mod Serialization
