-- ===== src/Examples.antt =====
-- Runs of the models on concrete inputs, and the theorems at inputs that meet their hypotheses.
mod LoopbackRuns
mod ServiceRuns
mod SessionRuns
mod TransportRuns
mod ConnectionRuns
mod ClientRuns
mod Slots
mod WireRuns
mod CacheRuns
