-- ===== src/Router.antt =====
-- services/router-go: the worker registry, the selection policy and the gRPC server.
pub mod Registry
pub mod Selector
pub mod Server
pub mod Entry
