-- ===== src/Api.antt =====
-- krake/krake/api/: the HTTP API server.
pub mod Auth
pub mod Database
pub mod Middlewares
pub mod Kubernetes
