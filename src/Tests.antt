-- ===== src/Tests.antt =====
-- Examples of the theorems on concrete inputs, and runs of the definitions.
mod Inputs
mod Lines
mod Machines
mod Network
mod Transfers
mod Clock
mod Wakeups
mod Workers
mod Mutexes
mod Crossed
mod Deliveries
mod Sockets
mod Starts
