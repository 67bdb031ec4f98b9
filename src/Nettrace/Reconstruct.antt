-- ===== src/Nettrace/Reconstruct.antt =====
-- backend/nettrace/reconstruct.py: five-tuple keys, the TCP state machine, UDP sessions, the units
-- of a key and the flows of a capture.
pub mod Keys
pub mod Tcp
pub mod Sessions
pub mod Units
pub mod Assemble
pub mod UnitFacts
pub mod Validity
