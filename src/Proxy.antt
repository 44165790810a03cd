-- ===== src/Proxy.antt =====
-- The caching proxy of Lab/lab5/proxylab-handout.
pub mod Cache
pub mod Request
pub mod Forward
