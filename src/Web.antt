-- ===== src/Web.antt =====
-- web/src: the console of the gateway.
pub mod Values
pub mod Types
pub mod Objects
pub mod Http
pub mod Api
pub mod Process
pub mod Toasts
pub mod Cells
pub mod Keys
pub mod History
pub mod Monitor
pub mod Models
pub mod Settings
pub mod Packages
pub mod Subscriptions
pub mod Transports
pub mod Auth
pub mod Login
pub mod Layout
pub mod Theme
pub mod Tests
