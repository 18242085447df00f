-- ===== src/Webui.antt =====
-- Package webui: the administration pages of a hub.
pub mod Auth
