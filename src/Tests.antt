-- ===== src/Tests.antt =====
-- Runs of the model on small inputs, one for each theorem that has conditions.
mod Samples
mod Jobs
mod Tables
mod Hub
mod Queue
mod Registry
mod Auth
mod Config
mod Git
mod Server
mod Http
