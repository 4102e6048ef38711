-- ===== src/Recovery.antt =====
-- recovery.cpp: the main program of the recovery system.
mod Text
mod Storage
mod Args
mod Finish
mod Options
mod Erase
mod Rotate
mod Paths
mod Prompt
mod Menu
mod Clone
mod Config
mod Main
mod Sdtool
mod Start
mod Disk
mod Devices
mod Examples
