-- ===== src/Client.antt =====
-- `request` of app/frontend/api/client.js: the HTTP request that it builds, and what it makes of the
-- response. A JSON body is a value of `Client.Json`, and any other body is its text.
pub mod Json
pub mod Build
pub mod Handle
pub mod Api
pub mod Laws
pub mod Messages
