-- ===== src/Auth.antt =====
-- Accounts and sessions (apps/api/src/auth): passwords, email codes, two-factor challenges, QR
-- login and devices. What bcrypt, SHA-256, the authenticator codes and the SMS provider answer is
-- an interface (`Services`); codes, tokens and ids that are drawn, and the time, are arguments.
-- Mails, gateway messages and SMS texts are left out.
pub mod Rows
pub mod Sessions
pub mod LoginRequest
pub mod TwoFactor
pub mod Account
pub mod Password
pub mod Revocation
pub mod DeviceApproval
mod Examples
