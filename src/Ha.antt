-- ===== src/Ha.antt =====
-- custom_components/thatsmatter, the Home Assistant integration: its catalog of exports, the client
-- that reconciles it with the bridge, and what it does with the bridge's commands.
pub mod Models
pub mod Store
pub mod Runtime
pub mod States
pub mod Commands
pub mod Manager
pub mod Client
pub mod Examples
