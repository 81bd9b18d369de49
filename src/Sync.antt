-- ===== src/Sync.antt =====
-- The synchronisation of tasks, core/src/kernel/sync.rs.
pub mod Sema
pub mod Mutex
pub mod CondVar
