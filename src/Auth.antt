-- ===== src/Auth.antt =====
-- Signing in: the limit on failed logins, the accounts, the sessions and the tokens.
pub mod LoginLimiter
pub mod Users
pub mod Sessions
pub mod Tokens
pub mod TwoFactor
pub mod CliLogin
