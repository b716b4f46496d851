-- ===== src/Js.antt =====
-- What the program uses of JavaScript itself: strings as their UTF-16 code units, the values that
-- JSON yields, `String(…)`, truthiness, `??`, and the string methods that the parsers call.
-- Numbers in payloads are natural numbers; the program only prints them or passes them on.
pub mod Text
pub mod Json
pub mod Number
pub mod Map
pub mod Storage
