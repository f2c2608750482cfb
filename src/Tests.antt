-- ===== src/Tests.antt =====
-- Runs of the model and of its theorems at concrete inputs.
mod Wire
mod Protocol
mod DataChannel
mod Agent
mod Handshake
mod Traffic
mod Scream
mod Feedback
mod Registry
mod Bus
mod Candidate
mod Session
mod Media
mod DataSession
mod Ice
mod Sending
mod Security
mod LocalSource
