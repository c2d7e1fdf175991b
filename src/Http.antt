-- ===== src/Http.antt =====
-- The HTTP layer (http/): requests, their incremental parser, responses, the server.
pub mod Request
pub mod Context
pub mod Response
pub mod Server
pub mod Split
pub mod Serving
pub mod Answering
mod Examples
