-- ===== src/Golang.antt =====
-- What the program takes from Go's strings: UTF-8, `range`, `strings` and `unicode`.
pub mod Utf8
pub mod Strings
pub mod Ascii
pub mod Tables
pub mod Search
