-- ===== src/RobotUpdate.antt =====
-- bootable/recovery/robotUpdate.cpp: the boards of the robot are brought up to date over CAN.
pub mod Transport
pub mod Request
pub mod Firmware
pub mod Session
mod Examples
