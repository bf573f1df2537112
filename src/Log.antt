-- ===== src/Log.antt =====
-- lib/log.h and lib/log.cpp: the message of a log call, and the line that is written.
pub mod Format
pub mod Call
pub mod Padded
pub mod Line
pub mod Template
pub mod Digits
pub mod Place
pub mod Layout
pub mod Written
mod Examples
