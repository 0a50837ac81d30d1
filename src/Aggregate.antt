-- ===== src/Aggregate.antt =====
-- internal/aggregate: the sketches of distinct values, the model of rate limits and the aggregator.
pub mod Sketch
pub mod Rate
pub mod Rows
pub mod MapKeys
pub mod Counters
pub mod Aggregator
