-- ===== src/Tests.antt =====
-- Runs of the model on concrete inputs, and the theorems at concrete inputs.
mod Parse
mod Words
mod Queues
mod Slots
mod Tables
mod Stores
mod Connections
