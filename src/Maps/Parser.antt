-- ===== src/Maps/Parser.antt =====
-- src/lib/maps/parser.c: the parser of path mapping files.
pub mod State
pub mod LineRange
pub mod Elements
pub mod Rule
pub mod Lines
pub mod Copy
pub mod Reading
pub mod Copying
pub mod Ordered
