-- ===== src/Notify/Service.antt =====
-- `NotificationService` of app/services/notification_service.py, and the update of a channel in
-- app/api/notification.py, of which only `is_enabled` is kept. The rules by event are the list of the
-- enabled rules, of which a look-up takes those of the event. Whether a handler can be created for a
-- channel, and Python's `in` on texts, are parameters; an empty `keywords` is none. A message is sent
-- to the channels of a list, whose order is that of the rules.
use xzcccc_smart_media.Base.{
  ℕ, ◌+◌, [], ◌∷◌, ◌++◌, List, map, Bool, true, false, not, ◌&&◌, ◌||◌, ◌==◌, if◌then◌else◌, String,
  str_eq, keep, any, Option, none, some,
}

pub record NotificationChannel : Type 0 where
  pub channel_id : ℕ
  pub channel_type : String
  pub channel_enabled : Bool

pub record NotificationRule : Type 0 where
  pub rule_channel : ℕ
  pub event_type : String
  pub keywords : String
  pub rule_enabled : Bool

pub record NotifyTables : Type 0 where
  pub channels : List NotificationChannel
  pub rules : List NotificationRule
  pub next_id : ℕ

-- `configured`: Telegram is enabled in the configuration file, with a token and a chat.
pub record TelegramConfig : Type 0 where
  pub configured : Bool
  pub events : List String

pub record NotificationService : Type 0 where
  pub loaded_channels : List ℕ
  pub loaded_rules : List NotificationRule
  pub initialized : Bool

-- `id in ids`
abbrev pub holds : ℕ → List ℕ → Bool
holds id ids = any (λ j. j == id) ids

-- `ids.add(id)`
abbrev pub add_id : ℕ → List ℕ → List ℕ
add_id id ids = if holds id ids then ids else ids ++ id ∷ []

abbrev pub is_telegram : NotificationChannel → Bool
is_telegram ch = str_eq ch.channel_type "telegram"

abbrev pub new_channel : ℕ → NotificationChannel
new_channel id = record { channel_id = id; channel_type = "telegram"; channel_enabled = true }

abbrev pub new_rule : ℕ → String → NotificationRule
new_rule id event = record {
  rule_channel = id;
  event_type = event;
  keywords = "";
  rule_enabled = true;
}

abbrev pub has_rule : ℕ → List NotificationRule → String → Bool
has_rule id rules event = any (λ r. r.rule_channel == id && str_eq r.event_type event) rules

-- The rules for the events of a new channel.
unfoldable pub event_rules : ℕ → List String → List NotificationRule → List NotificationRule
event_rules id events rules =
    map (new_rule id) (keep (λ event. not (has_rule id rules event)) events)

unfoldable pub create_telegram : TelegramConfig → NotifyTables → NotifyTables
create_telegram config tables = record tables {
  channels = tables.channels ++ new_channel tables.next_id ∷ [];
  rules = tables.rules ++ event_rules tables.next_id config.events tables.rules;
  next_id = tables.next_id + 1;
}

abbrev pub enabled_channels : NotifyTables → List NotificationChannel
enabled_channels tables = keep (λ ch. ch.channel_enabled) tables.channels

-- A Telegram channel is created where the configuration has one and no enabled channel is one.
abbrev pub wants_telegram : TelegramConfig → NotifyTables → Bool
wants_telegram config tables = config.configured && not (any is_telegram (enabled_channels tables))

abbrev pub with_enabled : ℕ → Option Bool → NotificationChannel → NotificationChannel
with_enabled id none ch = ch
with_enabled id (some flag) ch =
    if ch.channel_id == id then record ch { channel_enabled = flag } else ch

module _ (creates : NotificationChannel → Bool) where
  -- The channels with a handler.
  unfoldable pub load_channels : List NotificationChannel → List ℕ → List ℕ
  load_channels [] ids = ids
  load_channels (ch ∷ rest) ids =
      load_channels rest (if creates ch then add_id ch.channel_id ids else ids)

  unfoldable pub initialize :
      TelegramConfig → NotifyTables → NotificationService → NotifyTables × NotificationService
  initialize config tables s =
      let loaded = load_channels (enabled_channels tables) s.loaded_channels in
      let wanted = wants_telegram config tables in
      let tables' = if wanted then create_telegram config tables else tables in
      let ids = if wanted then load_channels (new_channel tables.next_id ∷ []) loaded else loaded in
      if s.initialized then (tables, s) else (
        tables',
        record {
          loaded_channels = ids;
          loaded_rules = s.loaded_rules ++ keep (λ r. r.rule_enabled) tables'.rules;
          initialized = true;
        },
      )

  unfoldable pub reload :
      TelegramConfig → NotifyTables → NotificationService → NotifyTables × NotificationService
  reload config tables s =
      initialize config tables
        (record { loaded_channels = []; loaded_rules = []; initialized = false })

  -- `update_channel`: an unknown id is answered with 404.
  unfoldable pub update_channel :
      TelegramConfig
      → ℕ
      → Option Bool
      → NotifyTables × NotificationService
      → NotifyTables × NotificationService
  update_channel config id flag (tables, s) =
      if any (λ ch. ch.channel_id == id) tables.channels
      then reload config (record tables { channels = map (with_enabled id flag) tables.channels }) s
      else (tables, s)

  -- One request after the other.
  unfoldable pub update_channels :
      TelegramConfig
      → List (ℕ × Option Bool)
      → NotifyTables × NotificationService
      → NotifyTables × NotificationService
  update_channels config [] state = state
  update_channels config ((id, flag) ∷ requests) state =
      update_channels config requests (update_channel config id flag state)

-- `keyword in text`
module _ (includes : String → String → Bool) where
  abbrev pub rule_matches : String → String → String → NotificationRule → Bool
  rule_matches event title content r =
      str_eq r.event_type event
      && (str_eq r.keywords "" || includes r.keywords title || includes r.keywords content)

  -- `channel_ids`
  unfoldable pub channel_ids : String → String → String → List NotificationRule → List ℕ → List ℕ
  channel_ids event title content [] ids = ids
  channel_ids event title content (r ∷ rules) ids =
      channel_ids event title content rules
        (if rule_matches event title content r then add_id r.rule_channel ids else ids)

  -- The channels that a service sends a message to.
  abbrev pub recipients : String → String → String → NotificationService → List ℕ
  recipients event title content s =
      keep (λ id. holds id s.loaded_channels) (channel_ids event title content s.loaded_rules [])

  -- `send_notification`: the tables and the service afterwards, and the channels of the message
  unfoldable pub send_notification :
      (NotificationChannel → Bool)
      → TelegramConfig
      → NotifyTables
      → String
      → String
      → String
      → NotificationService
      → NotifyTables × NotificationService × List ℕ
  send_notification creates config tables event title content s =
      let (tables', s') =
        if s.initialized then (tables, s) else initialize creates config tables s in
      (tables', s', recipients event title content s')

-- What comes of the handler's `send`.
pub data SendOutcome : Type 0 where
  answered : Bool → SendOutcome
  timed_out : SendOutcome
  send_raised : String → SendOutcome

-- `_send_and_log`: the status and the error message of the log
abbrev pub log_entry : SendOutcome → String × String
log_entry (answered success) =
    if success then ("success", "") else ("failed", "Handler returned False")
log_entry timed_out = ("failed", "Timeout")
log_entry (send_raised e) = ("failed", e)
