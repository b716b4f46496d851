-- ===== src/Workbench/Reducer/Known.antt =====
-- Which events a run knows after a batch (stream-reducer.ts, both loops of
-- `reduceAgentStreamEvents`).
