-- ===== src/Json.antt =====
-- JSON values as encoding/json hands them to the program: what a `json.RawMessage` denotes. An
-- integer literal is `number`, any other number literal is `decimal` with its text; literals out
-- of the range of a float64 are not represented.
pub mod Value
pub mod Fields
pub mod Schema
