-- ===== src/Platform/Ast1060.antt =====
-- The backends of the AST1060 (app-rot/src/platform/ast1060.rs).
pub mod Flash
pub mod Crypto
pub mod Authentic
