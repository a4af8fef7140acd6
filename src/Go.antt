-- ===== src/Go.antt =====
-- What the code uses of Go itself: strings, maps with their order of visiting, floating point.
pub mod Text
pub mod Maps
pub mod Floats
