-- ===== src/Poller.antt =====
-- internal/poller: what the exporter asks of the game servers itself.
pub mod Dto
pub mod A2s
pub mod Players
pub mod Rcon
pub mod Manager
pub mod Owned
