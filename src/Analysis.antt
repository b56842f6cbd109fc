-- ===== src/Analysis.antt =====
-- internal/analysis: the sample history of a volume and the regression over it.
pub mod RingBuffer
pub mod Growth
