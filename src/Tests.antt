-- ===== src/Tests.antt =====
-- Runs of the model on concrete values, and the theorems applied to them.
mod Configuring
mod Linking
mod Objects
mod Reading
mod Writing
mod Timers
mod Closing
mod Registering
mod Dealing
mod Sockets
mod Tasks
mod Wakeups
