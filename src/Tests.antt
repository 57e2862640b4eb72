-- ===== src/Tests.antt =====
-- Runs of the store and of the form builders on concrete data.
pub mod Store
pub mod Forms
pub mod Tools
pub mod Oidc
pub mod Links
pub mod Web
pub mod Startup
