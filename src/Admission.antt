-- ===== src/Admission.antt =====
-- backend/src/deskpilot/application/effect_dag_admission.py: the process-local admission of Runner
-- work, `EffectDagAdmissionController`.
pub mod State
pub mod Controller
pub mod Calls
pub mod Limits
pub mod Fuel
