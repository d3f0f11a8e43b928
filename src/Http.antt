-- ===== src/Http.antt =====
-- HTTP requests, as src/http/parser.cpp reads them from HTTP/1 text.
pub mod Request
pub mod Escape
pub mod Stream
pub mod Query
pub mod Parser
pub mod Response
pub mod Endpoint
pub mod Cookies
pub mod Layer
mod Tests
