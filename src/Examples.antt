-- ===== src/Examples.antt =====
-- The theorems at concrete inputs, by the part of the program that they are about.
mod Channels
mod Da
mod Sessions
mod Structures
mod Subscriptions
mod Transport
