-- ===== src/Examples.antt =====
-- Tests of the definitions and concrete cases of the theorems.
pub mod Data
pub mod Rules
pub mod Retry
pub mod Streams
pub mod Review
pub mod Publish
pub mod Messages
pub mod Registry
pub mod Intake
pub mod Albums
