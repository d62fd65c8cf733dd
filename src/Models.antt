-- ===== src/Models.antt =====
-- src/tekmar_482/models.py and the enumerations of src/tekmar_482/constants.py that it uses.
pub mod Setback
pub mod Setpoints
pub mod Device
pub mod Runtime
pub mod Equality
mod Tests
