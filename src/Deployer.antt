-- ===== src/Deployer.antt =====
-- services/model-deployer-go: the model registry over Postgres and its REST handlers.
pub mod Registry
pub mod Handler
pub mod Entry
pub mod Service
mod Tests
