-- ===== src/Tests.antt =====
-- Concrete inputs: the theorems at values that meet their hypotheses, and runs of the definitions.
mod Fixture
mod Capabilities
mod Bus
mod Tables
mod Service
mod Auth
mod Api
mod Server
mod Start
mod Whole
mod Reading
mod Interleaved
mod Contract
mod Pool
mod Abstract
