-- ===== src/Requests.antt =====
-- From an HTTP request to a store and back: pkg/urlbuilder, pkg/parse, pkg/handlers and
-- pkg/server/handler.
pub mod Http
pub mod Urls
pub mod Links
pub mod Redirect
pub mod Parse
pub mod Handlers
pub mod Server
pub mod Handle
pub mod Writers
