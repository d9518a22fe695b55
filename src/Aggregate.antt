-- ===== src/Aggregate.antt =====
-- src/aggregate and inc/aggregate: what a batch adds up to.
pub mod Counting
pub mod Totals
pub mod Delta
pub mod Writers
