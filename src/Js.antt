-- ===== src/Js.antt =====
-- The part of JavaScript that the sources lean on: dynamic values and text.
pub mod Text
pub mod Value
pub mod Number
pub mod Lower
