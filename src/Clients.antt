-- ===== src/Clients.antt =====
-- pkg/clients: what stands between the gateway and TON Storage.
pub mod BagsCache
pub mod Remote
pub mod Storage
