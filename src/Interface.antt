-- ===== src/Interface.antt =====
-- modules/interface: the stores behind the HTTP interface.
pub mod Session
