-- ===== src/Auth.antt =====
-- internal/auth.
pub mod Limiter
pub mod Model
pub mod Platform
pub mod Password
pub mod Tokens
pub mod Calls
pub mod Recovery
pub mod Sessions
pub mod Service
pub mod Mfa
pub mod Granted
pub mod Entered
pub mod Factors
pub mod SecondFactor
pub mod Lockout
pub mod RecoveryCodes
pub mod Hashed
pub mod StepUp
pub mod Issued
pub mod Toy
mod Tests
