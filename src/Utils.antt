-- ===== src/Utils.antt =====
-- app/pkg/utils
pub mod Operator
pub mod CacheKey
pub mod Tries
mod Examples
