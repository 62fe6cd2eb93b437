-- ===== src/Stats.antt =====
-- locust/stats.py.
pub mod Rounding
pub mod Quantiles
pub mod Entry
pub mod Requests
mod Tests
