-- ===== src/Header.antt =====
-- src/header: the header of a frame, its fields and its encoding.
pub mod Util
pub mod FrameCount
pub mod Structs
pub mod Loops
pub mod Basic
pub mod Extended
pub mod Codec
pub mod Traits
pub mod Generated
