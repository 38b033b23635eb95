-- ===== src/Provider.antt =====
-- src/provider: the model providers and the decorators around them.
pub mod Interface
pub mod ErrorClassifier
pub mod Reliable
pub mod Router
pub mod CredentialPool
