-- ===== src/Text.antt =====
-- What the program uses of Go's packages strings and strconv, over the characters of a text. A Go
-- string that is no valid UTF-8 has no counterpart here.
pub mod Trim
pub mod Split
pub mod Number
pub mod Base64
