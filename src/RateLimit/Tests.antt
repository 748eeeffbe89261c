-- ===== src/RateLimit/Tests.antt =====
-- Concrete clients: runs of the rate limiter, and its theorems at inputs that meet their hypotheses.
use xzcccc_smart_media.Base.{ℕ, ◌≤◌, ◌≡◌, refl, List, [], ◌∷◌, none, some, keep, any, length, arith}
use xzcccc_smart_media.Dict
use xzcccc_smart_media.RateLimit.Client.{Request, is_safe, client_id, client_bucket}
use xzcccc_smart_media.RateLimit.Limiter.{
  RateLimitConfig, ClientState, new_client, RateLimiter, init, check_client, cleanup_if_needed,
  check_rate_limit,
}
use xzcccc_smart_media.RateLimit.Bounds.{run, in_window, run-in_window}
use xzcccc_smart_media.RateLimit.Cleanup.{Check, run_checks}
use xzcccc_smart_media.RateLimit.Route.{is_skipped, get_request_config, rate_limit_middleware}

program : Unit {0}
unfolding keep any Dict.get Dict.put Dict.remove is_safe client_id client_bucket init check_client
    cleanup_if_needed check_rate_limit run run_checks is_skipped get_request_config
    rate_limit_middleware
program = tt

abbrev two_a_minute : RateLimitConfig
two_a_minute = record { requests = 2; seconds = 60; block_duration = 5 }

abbrev times : List ℕ
times = 1000000 ∷ 2000000 ∷ 3000000 ∷ 4000000 ∷ 62000001 ∷ []

-- The third request is refused and blocks the client; the fourth is refused; the window has moved on
-- at the fifth.
lets_three_through : (run two_a_minute times new_client []).1 ≡ 1000000 ∷ 2000000 ∷ 62000001 ∷ []
unfolding program
lets_three_through = refl

run-in_window_example :
    length (keep (in_window two_a_minute 62000001) (run two_a_minute times new_client []).1) ≤ 2
run-in_window_example = run-in_window two_a_minute times 62000001 (omega arith)

abbrev full : ClientState
full = record {
  requests = 1000000 ∷ 2000000 ∷ [];
  blocked_until = 0;
  total_requests = 2;
  blocked_count = 0;
}

abbrev blocked : ClientState
blocked = record full { blocked_until = 8000000; blocked_count = 1 }

abbrev limiter : RateLimiter
limiter = record {
  default_config = two_a_minute;
  read_config = record two_a_minute { requests = 10 };
  client_states = [];
  cleanup_interval = 300;
  last_cleanup = 0;
}

abbrev checks : List Check
checks =
    record { client = "ip:a:read"; config = two_a_minute; at = 5 }
    ∷ record { client = "ip:b:read"; config = two_a_minute; at = 900000000 }
    ∷ []

abbrev reading : Request
reading = record {
  method = "GET";
  path = "/api/search";
  api_key = none;
  bearer = none;
  auth_cookie = none;
  forwarded = none;
  real_ip = some "10.0.0.7";
  client_host = none;
}

reads_apart : client_bucket (λ t. t) reading ≡ "ip:10.0.0.7:read"
unfolding program
reads_apart = refl
