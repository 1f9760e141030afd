-- ===== src/Mux.antt =====
-- The layer between the interceptors and the protocols: mux/Socket.cpp, mux/RequestHandler.cpp and
-- the messages of rpc/proto.
pub mod Rpc
pub mod Socket
pub mod Handler
pub mod Loop
pub mod Channels
