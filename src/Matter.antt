-- ===== src/Matter.antt =====
-- bridge/src/matter: the Matter side of the bridge.
pub mod Ids
pub mod OnOffMap
pub mod WindowCovering
pub mod NodeLabel
pub mod Slot
pub mod Rebuild
pub mod Plane
pub mod Apply
pub mod Reports
pub mod Dispatch
pub mod Window
pub mod Generation
pub mod Examples
pub mod Mailbox
pub mod Run
