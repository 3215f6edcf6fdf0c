-- ===== src/Examples.antt =====
-- The theorems at concrete inputs.
mod ToyCrypto
mod ToyDid
mod ToyQueue
mod Components
mod Processing
mod Tables
mod Selection
mod Versions
mod Arrays
mod ToyNetwork
mod Batches
mod Parsers
mod Observing
mod Ending
