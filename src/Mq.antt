-- ===== src/Mq.antt =====
-- The mailbox: internal/mq.
pub mod Tests
pub mod Tables
pub mod Hub
pub mod Managed
pub mod Policy
pub mod Enrollment
pub mod Sdk
pub mod Quota
pub mod StoreV1
pub mod StoreV2
pub mod AckV1
pub mod DeliveryV2
pub mod Retention
pub mod Frames
pub mod Gateway
pub mod Admin
