-- ===== src/FreeRtos.antt =====
-- The code of src/free_rtos.
pub mod TimeDriver
pub mod Task
pub mod Executor
