-- ===== src/Tests.antt =====
-- Runs of the model on one small machine: the properties applied where their hypotheses hold.
mod Machine
mod Storage
mod Accounts
mod Auth
mod Provider
mod Api
mod Commands
mod System
mod Isolation
mod Source
