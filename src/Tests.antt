-- ===== src/Tests.antt =====
-- The theorems at concrete inputs, and runs of the definitions.
mod Samples
mod Wire
mod Messages
mod Options
mod Blocks
mod Tables
mod Routes
mod Sending
mod Handling
mod Client
mod Listening
mod Calm
mod Observing
mod Servers
mod Notifying
