-- ===== src/Tests.antt =====
-- The theorems at concrete inputs, and runs of the code.
mod Inputs
mod Pool
mod Chain
mod Proofs
mod Sending
mod Rounds
mod Threads
mod Network
mod Round
mod Files
mod Commands
mod Interleaving
mod Created
mod Recovery
mod Confirming
mod Validators
mod Workers
