-- ===== src/Rca.antt =====
-- internal/rca: the root cause analysis, by rules and by a language model.
pub mod Evidence
pub mod Confidence
pub mod Rules
pub mod DeployRule
pub mod Engine
pub mod LlmEngine
