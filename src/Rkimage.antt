-- ===== src/Rkimage.antt =====
-- bootable/recovery/rkimage.cpp: reading and checking an update image, copying its items, and installing it.
pub mod Read
pub mod Check
pub mod Compare
pub mod Items
pub mod Target
pub mod Copy
pub mod Verify
pub mod Loader
pub mod Install
mod Examples
