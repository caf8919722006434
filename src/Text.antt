-- ===== src/Text.antt =====
-- What the program uses of Rust's `str` and `String`: a text is the list of its code points, and
-- bytes are numbers below 256. `Utf8` decodes and encodes, `Words` trims and splits.
pub mod Utf8
pub mod Unicode
pub mod Trim
pub mod Affix
pub mod Number
pub mod Regex
pub mod Dict
