-- ===== src/Tests/Limiter.antt =====
-- Runs of ratelimit.go and apilog.go, with the limiter's configured burst and refill.
use nexcore_x_ui.Prelude.{◌+◌, ◌*◌, ◌≤◌, ◌<◌, ◌≡◌, List, [], ◌∷◌, ◌++◌, arith, length, some}
use nexcore_x_ui.Prelude.Int.{pos}
use nexcore_x_ui.RateLimit.{token, Bucket, new_rate_limiter, kept, hit}
use nexcore_x_ui.RateLimit.Bounds.{Event, request, tick, granted, InOrder, granted-le}
use nexcore_x_ui.RateLimit.Collector.{hit-kept}
use nexcore_x_ui.ApiLog.{new_log_buffer, run, flush_threshold, logged, ticked}
use nexcore_x_ui.ApiLog.Buffer.{entries, buffer_conserves}

abbrev events : List Event
events = request "k" 5 ∷ request "j" 6 ∷ tick 700_000_000_000 ∷ request "k" 700_000_000_001 ∷ []

granted-le_example :
    granted "k" (new_rate_limiter 10 1) events * token + 1 * 5 ≤ 10 * token + 1 * 700_000_000_001
granted-le_example =
    granted-le 10 1 "k" events 5 700_000_000_001 (omega arith) (omega arith) in_order
  where
    in_order : InOrder 5 events 700_000_000_001
    in_order = ground arith

abbrev worn : Bucket
worn = record { tokens = pos token; last = 5 }

hit-kept_example :
    hit 10 1 700_000_000_001 (kept 700_000_000_000 (some worn))
    ≡ hit 10 1 700_000_000_001 (some worn)
hit-kept_example =
    hit-kept 10 1 700_000_000_000 700_000_000_001 (some worn) (omega arith) (omega arith)
      (λ b e. cc) (omega arith)

buffer_conserves_example :
    ((run new_log_buffer (logged 7 ∷ ticked ∷ logged 8 ∷ [])).handed
        ++ (run new_log_buffer (logged 7 ∷ ticked ∷ logged 8 ∷ [])).queue
      ≡ entries (logged 7 ∷ ticked ∷ logged 8 ∷ []))
    × (length (run new_log_buffer (logged 7 ∷ ticked ∷ logged 8 ∷ [])).queue < flush_threshold)
buffer_conserves_example = buffer_conserves (logged 7 ∷ ticked ∷ logged 8 ∷ [])
