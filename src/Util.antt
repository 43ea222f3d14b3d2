-- ===== src/Util.antt =====
-- The files of util/.
pub mod BitArray
pub mod Path
pub mod Singleton
pub mod Timer
pub mod FileWatcher
pub mod ArrayLock
