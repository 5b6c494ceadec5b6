-- ===== src/Tests.antt =====
-- Concrete inputs for the theorems, and evaluations of the model.
mod Toy
mod ToyTables
mod ToySqlite
mod ToyBridge
mod Sessions
mod Peers
mod Agreement
mod Messages
mod Queues
mod Transports
mod Stores
mod Race
mod Bridge
mod Engine
mod Integration
mod Checks
