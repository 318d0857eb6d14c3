-- ===== src/Io.antt =====
-- The package otelio: instrumented readers and writers.
pub mod Instruments
pub mod Tracking
pub mod Reader
pub mod Writer
pub mod Session
