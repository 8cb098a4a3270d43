-- ===== src/Applications.antt =====
-- Applications: the requests to decide them (app/models/application/index.py), and the repository
-- app/adapters/application_repository_adapter.py.
pub mod Requests
pub mod Duplicates
pub mod Repository
pub mod Certificate
