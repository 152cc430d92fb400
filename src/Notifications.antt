-- ===== src/Notifications.antt =====
-- apps/api/app/notifications: the message model, the dispatcher and the Bot API providers.
pub mod Models
pub mod Dispatcher
pub mod BotApi
pub mod Factory
mod Tests
