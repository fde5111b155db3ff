-- ===== src/Go.antt =====
-- What the program uses of Go's standard library: `strings`, `strconv` and `net`, maps, and the order of strings.
pub mod Text
pub mod Number
pub mod Net
pub mod Map
pub mod Keys
pub mod Order
pub mod Lex
mod Tests
