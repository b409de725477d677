-- ===== src/Tests.antt =====
-- The theorems at concrete inputs: views, files, names and daemons that their hypotheses hold of.
mod Copies
mod Deliveries
mod Daemons
mod Descriptors
mod Disk
mod Endings
mod Fds
mod Files
mod Handles
mod Listeners
mod Names
mod Places
mod Queues
mod Records
mod Sample
mod Sockets
mod Views
mod Wakeups
