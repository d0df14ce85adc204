-- ===== src/Examples.antt =====
-- The theorems at concrete inputs, with concrete sockets, JSON values and stores.
mod Game
mod Wire
mod Connections
mod Requests
mod Threads
mod Stores
mod Database
mod Redis
mod Listening
mod CommandLine
mod Benchmark
mod Bots
mod Logging
