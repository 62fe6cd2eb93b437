-- ===== src/Util.antt =====
-- locust/util: the spans of time of the command line, and the cache of the web interface.
pub mod Timespan
pub mod Memoize
mod Tests
