-- ===== src/Toolkit.antt =====
-- pipelineutils/modules/toolkit: the values of a JSON document and their checked extraction.
pub mod Value
pub mod Extractor
pub mod IpAndPort
pub mod Expected
pub mod Sound
