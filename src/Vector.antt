-- ===== src/Vector.antt =====
-- DummyClient/Types.h: the vectors, over the operations of `float`. An operator that assigns is a
-- function to the new value of the left operand.
pub mod Plane
pub mod Grid
pub mod Space
pub mod Homogeneous
pub mod Laws
mod Tests
