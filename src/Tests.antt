-- ===== src/Tests.antt =====
-- Runs of the model on concrete inputs, and the theorems at such inputs.
mod Inputs
mod X509
mod Crypto
mod Server
mod Time
mod Usage
mod Loaded
mod Socket
mod Connections
mod Reachable
mod Start
mod Tools
mod Memory
mod Remote
