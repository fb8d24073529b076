-- ===== src/Proxy/Valid.antt =====
-- What holds of every part of a proxy at all times.
mod Parts
mod State
pub mod Made
pub use Parts.*
pub use State.*
