-- ===== src/Server.antt =====
-- The servers: include/server.hpp, src/https.cpp, src/servers/http.cpp and
-- include/protocols/https.hpp.
pub mod Alpn
pub mod Respond
pub mod Application
pub mod Packets
pub mod Slots
pub mod Plain
pub mod Content
pub mod Accept
mod Tests
