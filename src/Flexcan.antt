-- ===== src/Flexcan.antt =====
-- bootable/recovery/robot_update/flexcan.cpp and flexcan.h: packets over single CAN frames.
pub mod Socket
pub mod Packet
pub mod Frame
pub mod Open
