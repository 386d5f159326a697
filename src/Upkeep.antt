-- ===== src/Upkeep.antt =====
-- What keeps the server in bounds and clean: back-end/src/redis/rate-limit.ts and
-- back-end/src/jobs/expiry-sweep.ts.
pub mod RateLimit
pub mod ExpirySweep
