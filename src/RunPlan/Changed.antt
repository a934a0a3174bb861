-- ===== src/RunPlan/Changed.antt =====
-- What `--changed-since` does to the levels.
