-- ===== src/Web/Types.antt =====
-- web/src/services/types.ts: what the API of the gateway answers. Numbers that count, name or time
-- something are natural numbers; values that the console does not look into are `Value`.
pub mod Metrics
pub mod Models
pub mod Packages
pub mod Others
pub use Metrics.*
pub use Models.*
pub use Packages.*
pub use Others.*
