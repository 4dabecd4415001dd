-- ===== src/Examples.antt =====
-- The theorems at concrete inputs.
mod Bits
mod Slots
mod Committee
mod Votes
mod Kbft
mod Pool
mod Offers
mod Liveness
mod Safety
