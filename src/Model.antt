-- ===== src/Model.antt =====
-- internal/model: how the name of a model is resolved.
pub mod Redirects
pub mod Graph
pub mod Plan
pub mod Resolve
pub mod Lookup
