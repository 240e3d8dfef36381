-- ===== src/Vm.antt =====
-- kernel/src/vm: the virtual memory of a task.
pub mod Area
pub mod Manager
mod Tests
