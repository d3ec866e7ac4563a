-- ===== src/Admin.antt =====
-- node/src/admin: the admin facade. `Http` sends the requests, `Call` turns failures into the
-- SDK's exceptions, and the other modules are the five resources.
pub mod Platform
pub mod Http
pub mod Call
pub mod Users
pub mod Groups
pub mod Clients
pub mod Roles
pub mod Realms
