-- ===== src/Tests.antt =====
-- Each theorem at an input that meets its hypotheses, and runs of the definitions.
mod Connections
mod Envelopes
mod Sessions
mod Loops
mod Echoes
mod Servers
mod Clients
mod Messages
mod Lifecycles
mod Framings
mod Objects
