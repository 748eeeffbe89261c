-- ===== src/Manager/Space.antt =====
-- `NamespacedCache` of app/core/cache_manager.py, without the namespace's name, which only the log
-- messages use. `now` is the call of `time.time()`.
use xzcccc_smart_media.Base.{ℕ, ◌+◌, ◌*◌, String, Bool, Option, some, if◌then◌else◌}
use xzcccc_smart_media.Lru.Cache as Lru
use xzcccc_smart_media.Lru.Cache.{LruCache, Result, ok, key_error}
use xzcccc_smart_media.Manager.Decimal.{versioned}

pub record NamespacedCache (V : Type 0) : Type 0 where
  pub default_ttl : ℕ
  pub enable_versioning : Bool
  pub lru : LruCache V
  pub version : ℕ
  pub version_updated_at : ℕ

-- The argument `ttl` of `set`: left out, None, or a number.
pub data Ttl : Type 0 where
  use_default : Ttl
  never : Ttl
  given : ℕ → Ttl

abbrev pub ttl_never_expire : ℕ
ttl_never_expire = 10 * 365 * 24 * 3600

module _ {V : Type 0} where
  unfoldable pub new_space : ℕ → ℕ → Bool → Bool → ℕ → NamespacedCache V
  new_space max_size default_ttl enable_stats enable_versioning now = record {
    default_ttl = default_ttl;
    enable_versioning = enable_versioning;
    lru = Lru.init max_size (some default_ttl) enable_stats;
    version = 1;
    version_updated_at = now;
  }

  abbrev pub get_versioned_key : NamespacedCache V → String → String
  get_versioned_key c key = if c.enable_versioning then versioned c.version key else key

  unfoldable pub increment_version : ℕ → NamespacedCache V → NamespacedCache V
  increment_version now c = record c { version = c.version + 1; version_updated_at = now }

  unfoldable pub space_get : ℕ → String → NamespacedCache V → NamespacedCache V × Option V
  space_get now key c =
      let (lru', value) = Lru.get now (get_versioned_key c key) c.lru in
      (record c { lru = lru' }, value)

  abbrev pub space_ttl : NamespacedCache V → Ttl → ℕ
  space_ttl c use_default = c.default_ttl
  space_ttl c never = ttl_never_expire
  space_ttl c (given t) = t

  unfoldable pub space_set :
      ℕ → String → Option V → Ttl → NamespacedCache V → Result (NamespacedCache V)
  space_set now key value ttl c =
      elim (Lru.set now (get_versioned_key c key) value (some (space_ttl c ttl)) c.lru) [
        | ok lru' ↦ ok (record c { lru = lru' })
        | key_error ↦ key_error
      ]

  unfoldable pub space_delete : String → NamespacedCache V → NamespacedCache V × Bool
  space_delete key c =
      let (lru', found) = Lru.delete (get_versioned_key c key) c.lru in
      (record c { lru = lru' }, found)

  unfoldable pub space_clear : NamespacedCache V → NamespacedCache V
  space_clear c = record c { lru = Lru.clear c.lru }

  unfoldable pub space_cleanup : ℕ → NamespacedCache V → NamespacedCache V × ℕ
  space_cleanup now c =
      let (lru', cleaned) = Lru.cleanup_expired now c.lru in (record c { lru = lru' }, cleaned)
