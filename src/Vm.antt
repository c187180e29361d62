-- ===== src/Vm.antt =====
-- pkg/vm: the evaluation stack and the slots of the virtual machine.
pub mod Stack
pub mod Slot
mod Examples
