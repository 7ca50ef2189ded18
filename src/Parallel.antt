-- ===== src/Parallel.antt =====
-- The analysis of files in parallel within a runner turn (plugins/LumaeAnalysis/parallel_analysis.py):
-- how many workers a turn has, and the pass that takes units in order.
pub mod Sizing
pub mod Pass
pub mod Serial
