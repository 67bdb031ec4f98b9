-- ===== src/FlowExport/Ipfix.antt =====
-- backend/nettrace/flowexport/ipfix.py
pub mod Fields
pub mod Encode
pub mod Decode
pub mod Errors
pub mod RoundTrip
pub mod InOrder
