-- ===== src/Utils.antt =====
-- controllers/utils: what the component reconcilers share.
pub mod Labels
pub mod Numbers
pub mod Discovery
