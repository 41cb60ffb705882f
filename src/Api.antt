-- ===== src/Api.antt =====
-- What stands between the router and the handlers: app/pkg/api and app/internal/apperror.
pub mod Signature
pub mod Sort
pub mod Filter
pub mod Errors
mod Examples
