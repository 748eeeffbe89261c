-- ===== src/Login.antt =====
-- Login by password: `AuthService.authenticate_user` of app/services/auth_service.py and the methods
-- of app/models/user.py that lock an account; and how accounts and passwords come about.
pub mod Account
pub mod Lockout
pub mod Register
mod Tests
