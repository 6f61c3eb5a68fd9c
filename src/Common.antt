-- ===== src/Common.antt =====
-- src/PipelineRunnerCommon: the structures that the plugins share.
pub mod Message
pub mod Config
