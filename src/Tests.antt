-- ===== src/Tests.antt =====
-- Runs of the models at concrete inputs, and instances of the theorems.
mod Jobs
mod Events
mod Core
mod Course
mod Metadata
mod Merging
mod Movies
mod Media
mod Decisions
mod Runtime
mod Executor
mod Policy
mod Writer
mod Auth
