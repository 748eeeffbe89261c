-- ===== src/Notify/Sent.antt =====
-- A message goes to each channel once, and exactly to those that a rule asks for.
use xzcccc_smart_media.Base.{
  ℕ, ◌≡◌, refl, ap, ◌∙◌, [], ◌∷◌, ◌++◌, List, Bool, true, false, ◌&&◌, ◌||◌, ◌==◌, if◌then◌else◌,
  String, keep, any, arith, Bool-cases, inl, inr,
}
use xzcccc_smart_media.Notify.Service.{
  NotificationChannel, NotificationRule, NotifyTables, TelegramConfig, NotificationService, holds,
  add_id, initialize, rule_matches, channel_ids, recipients, send_notification,
}

abbrev pub Distinct : List ℕ → Type 0
Distinct [] = Unit
Distinct (x ∷ xs) = (holds x xs ≡ false) × Distinct xs

holds-append : (id x : ℕ) (ids : List ℕ) → holds id (ids ++ x ∷ []) ≡ holds id ids || x == id
unfolding any
holds-append id x [] = ground arith
holds-append id x (y ∷ ids) = ground (arith, holds-append id x ids)

Distinct-append :
    (x : ℕ) (ids : List ℕ) → holds x ids ≡ false → Distinct ids → Distinct (ids ++ x ∷ [])
unfolding any
Distinct-append x [] absent h = (refl, tt)
Distinct-append x (y ∷ ids) absent (own, h) = (
  ground (arith, holds-append y x ids, own, absent),
  Distinct-append x ids (ground (arith, absent)) h,
)

Distinct-add_id : (x : ℕ) (ids : List ℕ) → Distinct ids → Distinct (add_id x ids)
Distinct-add_id x ids h = elim (Bool-cases (holds x ids)) [
  | inl there ↦ rw there h
  | inr absent ↦ rw absent (Distinct-append x ids absent h)
]

holds-add_id : (id x : ℕ) (ids : List ℕ) → holds id (add_id x ids) ≡ holds id ids || x == id
holds-add_id id x ids = elim (Bool-cases (holds x ids)) [
  | inl there ↦ rw there (elim (Bool-cases (x == id)) [
    | inl same ↦ same_lem same there
    | inr other ↦ ground (arith, other)
  ])
  | inr absent ↦ rw absent (holds-append id x ids)
]
  where
    same_lem : (x == id) ≡ true → holds x ids ≡ true → holds id ids ≡ holds id ids || x == id
    same_lem same there =
        let e : x ≡ id = ground arith in ground (arith, same, ap (λ (k : ℕ). holds k ids) e, there)

-- Distinct ids stay so when some are taken out, and the others are held as before.
holds-keep : (id : ℕ) (p : ℕ → Bool) (ids : List ℕ) → holds id (keep p ids) ≡ holds id ids && p id
unfolding any keep
holds-keep id p [] = refl
holds-keep id p (x ∷ ids) = elim (Bool-cases (x == id)) [
  | inl same ↦ let e : x ≡ id = ground arith in ground (arith, holds-keep id p ids, ap p e, same)
  | inr other ↦ ground (arith, holds-keep id p ids, other)
]

Distinct-keep : (p : ℕ → Bool) (ids : List ℕ) → Distinct ids → Distinct (keep p ids)
unfolding keep
Distinct-keep p [] h = tt
Distinct-keep p (x ∷ ids) (own, h) = elim (Bool-cases (p x)) [
  | inl stays ↦ rw stays (ground (arith, holds-keep x p ids, own), Distinct-keep p ids h)
  | inr goes ↦ rw goes (Distinct-keep p ids h)
]

module _ (includes : String → String → Bool) (event title content : String) where
  abbrev pub asks_for : ℕ → List NotificationRule → Bool
  asks_for id rules =
      any
        (λ (r : NotificationRule).
          rule_matches includes event title content r && r.rule_channel == id)
        rules

  channel_ids-holds :
      (id : ℕ) (rules : List NotificationRule) (ids : List ℕ)
      → holds id (channel_ids includes event title content rules ids)
        ≡ holds id ids || asks_for id rules
  unfolding channel_ids any
  channel_ids-holds id [] ids = ground arith
  channel_ids-holds id (r ∷ rules) ids =
      elim (Bool-cases (rule_matches includes event title content r)) [
        | inl matches ↦
            rw (matches, channel_ids)
              (ground (
                arith,
                channel_ids-holds id rules (add_id r.rule_channel ids),
                holds-add_id id r.rule_channel ids,
              ))
        | inr passes ↦ rw (passes, channel_ids) (channel_ids-holds id rules ids)
      ]

  channel_ids-Distinct :
      (rules : List NotificationRule) (ids : List ℕ)
      → Distinct ids
      → Distinct (channel_ids includes event title content rules ids)
  unfolding channel_ids
  channel_ids-Distinct [] ids h = h
  channel_ids-Distinct (r ∷ rules) ids h =
      elim (Bool-cases (rule_matches includes event title content r)) [
        | inl matches ↦
            rw (matches, channel_ids)
              (channel_ids-Distinct rules (add_id r.rule_channel ids)
                (Distinct-add_id r.rule_channel ids h))
        | inr passes ↦ rw (passes, channel_ids) (channel_ids-Distinct rules ids h)
      ]

  recipients-exactly :
      (id : ℕ) (s : NotificationService)
      → Distinct (recipients includes event title content s)
        × (holds id (recipients includes event title content s)
            ≡ asks_for id s.loaded_rules && holds id s.loaded_channels)
  unfolding any
  recipients-exactly id s = (
    Distinct-keep (λ j. holds j s.loaded_channels) _ (channel_ids-Distinct s.loaded_rules [] tt),
    holds-keep id (λ j. holds j s.loaded_channels) _
        ∙ ap (λ (b : Bool). b && holds id s.loaded_channels)
            (channel_ids-holds id s.loaded_rules []),
  )

  sender-initialized :
      (creates : NotificationChannel → Bool) (config : TelegramConfig) (tables : NotifyTables)
      (s : NotificationService)
      → (if s.initialized then (tables, s) else initialize creates config tables s).1.initialized
        ≡ true
  unfolding initialize
  sender-initialized creates config tables s = ground arith

  -- A message is sent by a service that is initialized, if need be only now; to no channel twice; and to a
  -- channel exactly when this service has a handler loaded for it and one of its rules for the event, whose
  -- keyword is empty or stands in the title or the content, names it.
  pub send_notification-exactly :
      (creates : NotificationChannel → Bool) (config : TelegramConfig) (tables : NotifyTables)
      (id : ℕ) (s : NotificationService)
      → let (tables', s', sent) =
          send_notification includes creates config tables event title content s in
        (s'.initialized ≡ true)
        × Distinct sent
        × (holds id sent ≡ asks_for id s'.loaded_rules && holds id s'.loaded_channels)
  unfolding send_notification
  send_notification-exactly creates config tables id s =
      let (distinct, exactly) =
        recipients-exactly id
          (if s.initialized then (tables, s) else initialize creates config tables s).1 in
      (sender-initialized creates config tables s, distinct, exactly)
