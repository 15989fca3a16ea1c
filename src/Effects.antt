-- ===== src/Effects.antt =====
-- external_side_effects.py: the ledger of externally visible side effects.
pub mod Record
pub mod Disk
pub mod Store
pub mod Keys
pub mod Once
mod Tests
