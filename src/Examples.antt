-- ===== src/Examples.antt =====
-- The theorems at concrete inputs, and tests of the definitions.
mod Fixtures
mod States
mod Stores
mod Runs
mod Chats
mod Guards
mod Reminders
mod Ticks
mod Memories
