-- ===== src/Users.antt =====
-- src/modules/users, src/modules/departments, src/modules/auth, src/middlewares/auth.middleware.js:
-- accounts and logging in.
pub mod Platform
pub mod Repository
pub mod Departments
pub mod Service
pub mod Login
pub mod Columns
pub mod Creation
