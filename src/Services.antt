-- ===== src/Services.antt =====
-- services: the websocket sessions, and the HTTP and gRPC APIs over the core and the authentication
-- services.
pub mod Interfaces
pub mod Messaging
pub mod Authentication
pub mod Core
pub mod Web
pub mod Grpc
pub mod Server
pub mod Agreement
mod Tests
