-- ===== src/Auth.antt =====
-- Roles, principals and the authorization of requests: src/embodirun/application/auth.py.
pub mod Policy
pub mod Laws
mod Tests
