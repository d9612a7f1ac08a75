-- ===== src/Headers.antt =====
-- watermelon-proto/src/headers: the names, the values and the map of the headers of a message.
pub mod Name
pub mod Value
pub mod Map
