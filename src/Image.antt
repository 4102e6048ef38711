-- ===== src/Image.antt =====
-- Image.cpp and Image.h: hex files and the elements that they hold.
pub mod Element
pub mod Scan
pub mod Elements
pub mod Path
pub mod Load
pub mod RoundTrip
pub mod Examples
