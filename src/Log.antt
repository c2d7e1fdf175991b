-- ===== src/Log.antt =====
-- The log (log/): fixed buffers, the file stream and the rolling asynchronous file.
pub mod FixedBuffer
pub mod File
pub mod Roll
pub mod Files
pub mod Logger
pub mod Async
mod Examples
