-- ===== src/FlowExport.antt =====
-- backend/nettrace/flowexport: NetFlow v5 and IPFIX.
pub mod Bytes
pub mod Records
pub mod Failing
pub mod Ipfix
pub mod NetflowV5
