-- ===== src/Models.antt =====
-- backend/app/models: the data contracts. A timestamp is a count of microseconds (the resolution of
-- Python's `datetime`), an address is the text that `str(ip)` gives, and a `float` is a value of a
-- type `F` whose operations are the interface of `Floats`.
pub mod Floats
pub mod Packet
pub mod Flow
pub mod Topology
pub mod Failure
pub mod Behavior
pub mod Snapshot
pub mod Dependency
