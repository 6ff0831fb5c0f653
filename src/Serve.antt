-- ===== src/Serve.antt =====
-- python/tensortorrent/serve: the model manager of the server.
pub mod Manager
