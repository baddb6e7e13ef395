-- ===== src/Cache.antt =====
-- backend/src/infrastructure/cache/providers/InMemoryCacheProvider.ts
mod Provider
pub mod Refinement
pub mod Transparency
mod Examples
unfoldable pub use Provider.*
