-- ===== src/Examples.antt =====
-- Concrete inputs for the theorems.
mod Bits
mod Cpu
mod Lists
mod Files
mod Paging
mod Kernel
mod Meetings
mod Time
mod Queues
mod Records
mod Creating
mod Tables
mod Demand
