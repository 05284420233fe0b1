-- ===== src/Api.antt =====
-- pkg/types, pkg/attributes and pkg/apierror: the schemas of the API, what is kept on them, and
-- the errors of its handlers.
pub mod Errors
pub mod Types
pub mod Attributes
pub mod Objects
pub mod Schemas
