-- ===== src/Fs.antt =====
-- src/fs.rs: files on the USB stick.
pub mod Path
pub mod Open
pub mod Stat
pub mod Clean
pub mod File
