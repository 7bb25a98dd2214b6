-- ===== src/Tests.antt =====
-- The theorems at concrete inputs, and runs of the code.
mod Cards
mod Choice
mod Search
mod Player
mod Socket
mod Pool
mod Header
mod Split
mod Session
