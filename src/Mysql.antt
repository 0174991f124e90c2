-- ===== src/Mysql.antt =====
-- The package mysql: the client protocol that the proxy speaks to its replicas.
pub mod Errors
pub mod Integers
pub mod LengthEncoded
pub mod Escape
pub mod Packets
pub mod OldPassword
pub mod Dsn
pub mod Dates
pub mod Buffer
pub mod Interpolate
mod NullTime
pub mod Connection
pub mod Fields
pub mod Columns
pub mod Values
pub mod Results
pub mod Query
pub mod Auth
pub mod Handshake
pub mod Connector
mod Runs
