-- ===== src/Notifications.antt =====
-- Notifications: server/internal/dao/notification.go over server/internal/model/notification.go, and
-- the delivery of the outbox in server/internal/service/notification/service.go.
pub mod Outbox
pub mod Inbox
pub mod Delivery
pub mod Attempts
pub mod Outcome
pub mod Exhaustion
pub mod Stranding
pub mod Reading
