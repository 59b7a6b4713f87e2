-- ===== src/Limiter.antt =====
-- `PrunaLimiter` of app/virtual_fitting/repositories/pruna_limiter.py: the limits that all servers share
-- on calls of Pruna. `Slot` takes a place, `Begin` starts a call, `Release` gives places back.
pub mod Slot
pub mod Begin
pub mod Release
