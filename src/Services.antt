-- ===== src/Services.antt =====
-- pkg/services: the service that looks up files, and the one for reports and bans.
pub mod Files
pub mod Reports
