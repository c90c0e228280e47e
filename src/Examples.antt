-- ===== src/Examples.antt =====
-- Concrete runs: a shop with its tables as lists and its Redis in memory, and the theorems applied
-- to it.
mod Shop
mod Sales
mod Requests
mod Locks
mod Services
mod Access
mod Visit
mod Members
mod Organizers
mod Prices
mod Doors
