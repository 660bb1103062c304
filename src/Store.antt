-- ===== src/Store.antt =====
-- internal/store: the tables that alerting reads and writes, and the transactions on them.
pub mod Db
pub mod Incidents
pub mod Invariant
pub mod Preservation
pub mod OpenIncident
