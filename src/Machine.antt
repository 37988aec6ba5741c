-- ===== src/Machine.antt =====
-- crates/riscv-machine: how a machine is put together. Of it, the devicetree.
pub mod Fdt
