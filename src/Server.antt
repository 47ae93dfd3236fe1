-- ===== src/Server.antt =====
-- internal/server: sessions, the pairing of a command line, and the admission of a request.
pub mod Tables
pub mod Request
pub mod Binding
pub mod Auth
pub mod Pairing
pub mod Routes
pub mod Lapse
