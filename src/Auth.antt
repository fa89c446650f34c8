-- ===== src/Auth.antt =====
-- apps/api/app/auth.py: bearer tokens, and what their holders may do.
pub mod Roles
pub mod Codec
pub mod Token
mod Tests
