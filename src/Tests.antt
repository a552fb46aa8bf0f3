-- ===== src/Tests.antt =====
-- Runs of the model on concrete inputs, and the theorems applied there.
pub mod Codec
pub mod Session
pub mod Simulation
pub mod Input
pub mod World
pub mod UsbipSession
pub mod HidSession
pub mod LinuxSession
