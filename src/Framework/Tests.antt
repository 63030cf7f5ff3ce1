-- ===== src/Framework/Tests.antt =====
-- Tests of the framework, by component.
mod Buffers
mod Records
mod Instances
mod Lifecycle
