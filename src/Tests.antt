-- ===== src/Tests.antt =====
-- The theorems of the library at concrete inputs, and runs of the definitions.
mod Bytes
mod Screen
mod Sessions
mod Listings
mod Pickers
mod Registries
mod Clients
mod Pumps
mod Keys
mod Scrolls
mod Signatures
mod Switches
