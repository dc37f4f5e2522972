-- ===== src/Notifications.antt =====
-- src/minemonitor/notifications: the outbox of outbound alerts and its delivery.
pub mod Outbox
pub mod Dispatch
