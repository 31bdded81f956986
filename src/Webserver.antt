-- ===== src/Webserver.antt =====
-- webserver/: the start of the server, which checks the services that it uses and then listens.
pub mod Startup
pub mod ElasticSearch
pub mod Main
mod Tests
