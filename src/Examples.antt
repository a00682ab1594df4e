-- ===== src/Examples.antt =====
-- Runs of the program at small inputs, with a provider, tools and a clock that are written out.
mod Fixtures
mod Components
mod Turns
mod Memories
mod Iterations
mod Ends
mod Batches
mod Disks
mod Vaults
mod Wires
mod Sockets
