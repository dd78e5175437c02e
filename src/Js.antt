-- ===== src/Js.antt =====
-- The parts of the JavaScript language and its built-in objects that the modelled code uses:
-- strings as lists of UTF-16 code units, and the values of `JSON.parse`.
pub mod Text
pub mod Json
pub mod Promise
