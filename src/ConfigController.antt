-- ===== src/ConfigController.antt =====
-- controllers/integrationconfig_controller.go. The two conditions are the slots of a record, and a nil slice is the
-- empty list; the periodic triggers are the keys of their map.
pub mod GitSecret
pub mod State
pub mod Webhooks
pub mod Accounts
pub mod Reconcile
pub mod Effects
pub mod Hooks
pub mod Stored
