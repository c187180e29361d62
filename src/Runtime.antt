-- ===== src/Runtime.antt =====
-- pkg/core/interop/runtime: the system calls that look at the run of the virtual machine.
pub mod Witness
mod Examples
