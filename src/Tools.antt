-- ===== src/Tools.antt =====
-- src/tools/Tools.cpp: the functions on strings, numbers and blocks of bytes. A `const char*` is the bytes
-- before its terminator.
pub mod Split
pub mod Numbers
pub mod Utf8
pub mod Encoded
pub mod Blocks
pub mod Padding
pub mod Endpoint
pub mod Random
pub mod Jscode
mod Tests
