-- ===== src/Actor.antt =====
-- Concurrent/day08-Actor/Actor: an ATM as actors that share nothing and send messages.
pub mod Message
pub mod Dispatcher
pub mod Bank
pub mod Atm
pub mod Hardware
pub mod System
