-- ===== src/Framework.antt =====
-- The files of framework/.
pub mod DictManager
pub mod PoolMgr
