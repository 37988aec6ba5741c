-- ===== src/Devices.antt =====
-- crates/riscv-devices/src: the guest's memory, the virtio transport and its devices, and the bus.
pub mod Memory
pub mod Virtio
pub mod Plic
pub mod Uart
pub mod Bus
pub mod Block
pub mod Net
