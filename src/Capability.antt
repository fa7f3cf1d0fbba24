-- ===== src/Capability.antt =====
-- src/capability.rs: the properties of a field that a program may depend on.
use ast_interpreter.Base.{ℕ, Bool, leb}
use ast_interpreter.Host.{FieldId, Fields}

pub data Capability : Type 0 where
  unsigned_fits signed_fits field_bits_at_least : (bits : ℕ) → Capability

unfoldable pub holds : Fields → Capability → FieldId → Bool
holds fields (unsigned_fits bits) field = fields.fits_unsigned field bits
holds fields (signed_fits bits) field = fields.fits_unsigned field bits
holds fields (field_bits_at_least bits) field = leb bits (fields.num_bits field)
