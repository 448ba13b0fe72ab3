-- ===== src/Auth.antt =====
-- auth/permission: the guards of authenticated and of internal requests.
pub mod Conflict
pub mod Sameness
pub mod Agreement
pub mod Guard
pub mod Recorded
pub mod Owner
pub mod Granted
pub mod Internal
pub mod Secret
mod Tests
