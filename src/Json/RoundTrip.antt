-- ===== src/Json/RoundTrip.antt =====
-- What `serialize` prints, the parser reads back.
pub mod Numbers
pub mod Strings
pub mod Printable
pub mod Order
pub mod Steps
pub mod Values
