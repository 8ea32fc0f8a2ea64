-- ===== src/Device.antt =====
-- The user side of the PCIe device, dtcInterfaceLib/mu2edev.cpp, with the index arithmetic on its
-- rings of buffers from mu2e_driver/mu2e_mmap_ioctl.h.
pub mod Ring
pub mod Backend
pub mod State
pub mod Init
pub mod Read
pub mod Write
pub mod Register
pub mod Lock
mod Tests
