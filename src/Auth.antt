-- ===== src/Auth.antt =====
-- internal/auth: API keys.
pub mod Text
pub mod Scopes
pub mod Keys
pub mod Memory
pub mod Service
pub mod Webhook
pub mod Laws
pub mod Sql
pub mod ScopeTexts
pub mod Refinement
pub mod KeyCalls
pub mod Revocation
pub mod Granting
