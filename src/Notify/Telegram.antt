-- ===== src/Notify/Telegram.antt =====
-- The channel that the configuration file asks for.
use xzcccc_smart_media.Base.{ℕ, ◌≤◌, ◌≡◌, Bool, true, any, length}
use xzcccc_smart_media.Notify.Service.{
  NotificationChannel, NotifyTables, TelegramConfig, NotificationService, is_telegram,
  enabled_channels,
}

module _ (creates : NotificationChannel → Bool) (config : TelegramConfig) where
  -- What every state of the tables has, once the service has been loaded.
  abbrev HasTelegram : ℕ → NotifyTables × NotificationService → Type 0
  HasTelegram n (tables, s) =
      (any is_telegram (enabled_channels tables) ≡ true) × (n ≤ length tables.channels)
