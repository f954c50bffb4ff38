-- ===== src/Utils.antt =====
-- The package utils.
pub mod Encrypto
pub mod Convert
pub mod Keys
pub mod Signature
