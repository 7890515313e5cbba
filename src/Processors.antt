-- ===== src/Processors.antt =====
-- app/processors: the steps that an incoming message passes before it is published or reviewed.
pub mod Base
pub mod Filters
pub mod Pipeline
