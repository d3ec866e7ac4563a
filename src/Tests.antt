-- ===== src/Tests.antt =====
-- The theorems at concrete inputs.
mod AdminPath
mod Bearer
mod Capped
mod Provider
mod Errors
mod Config
mod Jwt
mod Auth
mod Jwks
mod Admin
mod Tools
mod Setup
mod HarnessApp
mod RepoConfig
mod Guards
mod Conditions
