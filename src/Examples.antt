-- ===== src/Examples.antt =====
-- The theorems at concrete inputs, each applied to all its arguments.
mod Shapes
mod Attributes
mod Encoders
mod Structs
mod Frames
mod Runtime
mod Values
mod Series
mod Plans
