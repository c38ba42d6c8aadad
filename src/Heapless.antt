-- ===== src/Heapless.antt =====
-- The bounded containers that the program takes from the crates `heapless` and `embassy-sync`: no
-- code of the repository, so each is a record of the operations that the program calls with what
-- their documentation promises. `Heapless.Models` and `Heapless.TextModels`
-- show that the promises can be met.
pub mod LinearMap
pub mod IndexSet
pub mod History
pub mod Channel
pub mod Queue
pub mod Texts
pub mod Models
pub mod TextModels
