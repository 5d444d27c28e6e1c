-- ===== src/Probe.antt =====
-- internal/probe: the scheduler of probes. The executor opens sockets and is not modelled: an execution
-- is a step with any result.
pub mod Scheduler
