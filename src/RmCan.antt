-- ===== src/RmCan.antt =====
-- bootable/recovery/robot_update/rmCAN.cpp: messages of any length over flexcan packets.
pub mod Link
pub mod Send
pub mod Receive
mod Examples
pub mod Device
pub mod Thread
