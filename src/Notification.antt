-- ===== src/Notification.antt =====
-- internal/notification: the desktop notifications about requests, and the clicks on their buttons.
pub mod Markup
pub mod Handler
pub mod Tests
