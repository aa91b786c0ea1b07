-- ===== src/Server.antt =====
-- src/main.c: the connections of the server, and the scripts that arrive over them.
pub mod Kernel
pub mod Scripts
pub mod Connections
pub mod Receive
pub mod Events
pub mod Start
pub mod End
pub mod Sessions
