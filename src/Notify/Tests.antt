-- ===== src/Notify/Tests.antt =====
-- Runs of the service's code, and instances of its theorems.
use xzcccc_smart_media.Base.{
  ℕ, ◌≡◌, refl, [], ◌∷◌, List, Bool, true, false, ◌&&◌, String, str_eq, any, keep, Option, some,
}
use xzcccc_smart_media.Notify.Service.{
  NotificationChannel, NotificationRule, NotifyTables, TelegramConfig, NotificationService, holds,
  event_rules, create_telegram, load_channels, initialize, reload, update_channel, update_channels,
  channel_ids, send_notification,
}
use xzcccc_smart_media.Notify.Sent.{Distinct, asks_for, send_notification-exactly}

abbrev rule : ℕ → String → String → NotificationRule
rule id event keywords = record {
  rule_channel = id;
  event_type = event;
  keywords = keywords;
  rule_enabled = true;
}

-- Two rules name channel 1, channel 3 has no handler.
abbrev sample_service : NotificationService
sample_service = record {
  loaded_channels = 1 ∷ 2 ∷ [];
  loaded_rules =
      rule 1 "sync_finish" ""
      ∷ rule 3 "sync_finish" ""
      ∷ rule 1 "sync_finish" ""
      ∷ rule 2 "sync_error" ""
      ∷ [];
  initialized = true;
}

abbrev switched_off : NotifyTables
switched_off = record {
  channels = record { channel_id = 1; channel_type = "telegram"; channel_enabled = false } ∷ [];
  rules = [];
  next_id = 2;
}

abbrev from_file : TelegramConfig
from_file = record { configured = true; events = "sync_finish" ∷ [] }

abbrev all_created : NotificationChannel → Bool
all_created ch = true

abbrev sent_run : NotifyTables × NotificationService × List ℕ
sent_run =
    send_notification str_eq all_created from_file switched_off "sync_finish" "Done" "3 files"
      sample_service

one_sent : sent_run.2 ≡ 1 ∷ []
unfolding send_notification channel_ids keep any
one_sent = refl

-- A service that is not initialized makes the Telegram channel first, and sends to it.
abbrev fresh_service : NotificationService
fresh_service = record { loaded_channels = []; loaded_rules = []; initialized = false }

abbrev first_sent : NotifyTables × NotificationService × List ℕ
first_sent =
    send_notification str_eq all_created from_file switched_off "sync_finish" "Done" "3 files"
      fresh_service

first_one_sent : first_sent.2 ≡ 2 ∷ []
unfolding send_notification initialize create_telegram event_rules load_channels channel_ids keep
    any
first_one_sent = refl

send_notification-exactly_example :
    (first_sent.1.initialized ≡ true)
    × Distinct first_sent.2
    × (holds 2 first_sent.2
        ≡ asks_for str_eq "sync_finish" "Done" "3 files" 2 first_sent.1.loaded_rules
          && holds 2 first_sent.1.loaded_channels)
send_notification-exactly_example =
    send_notification-exactly str_eq "sync_finish" "Done" "3 files" all_created from_file
      switched_off 2 fresh_service

abbrev switch_offs : List (ℕ × Option Bool)
switch_offs = (2, some false) ∷ (3, some false) ∷ (9, some false) ∷ []

-- Each of the two channels that are switched off is followed by a new one.
switched_run :
    (update_channels all_created from_file switch_offs
      (reload all_created from_file switched_off sample_service)).0.next_id
    ≡ 5
unfolding update_channels update_channel reload initialize create_telegram keep any
switched_run = refl
