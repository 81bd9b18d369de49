-- ===== src/Tests.antt =====
-- The theorems at concrete inputs, and runs of the definitions.
mod Vector
mod Data
mod Kernels
mod Messages
mod Display
mod Timers
mod Waiting
mod Typing
mod Systems
mod Machine
mod Boards
mod Panel
