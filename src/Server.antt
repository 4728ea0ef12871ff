-- ===== src/Server.antt =====
-- server.cpp and settings.h: the ports, the worker threads and the hand-over of connections.
pub mod Ports
pub mod Dispatch
pub mod Setup
