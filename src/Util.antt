-- ===== src/Util.antt =====
-- src/module/node/util/util.cpp: texts that util makes from values.
pub mod Format
pub mod Inspect
pub mod Promises
mod Runs
