-- ===== src/Tests.antt =====
-- The operations run on small inputs, and the theorems of the development at such inputs.
pub mod Transfer
pub mod Arguments
pub mod Buffers
pub mod Tables
pub mod Ring
pub mod Rings
pub mod Clocks
pub mod Movies
pub mod Remote
pub mod Pages
pub mod Quotes
