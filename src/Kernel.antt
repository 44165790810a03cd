-- ===== src/Kernel.antt =====
-- The kernel modules of Lab/lab4/2019-11730_kernellab, with the kernel that they call as a parameter.
mod Bits
pub mod Paddr
pub mod Ptree
