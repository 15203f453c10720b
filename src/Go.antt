-- ===== src/Go.antt =====
-- What the program uses of the Go language and its standard library.
pub mod Error
pub mod Action
pub mod Text
pub mod Int
