-- ===== src/Analyzer.antt =====
-- internal/analyzer
pub mod Worker
pub mod Processor
