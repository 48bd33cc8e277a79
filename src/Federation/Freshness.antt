-- ===== src/Federation/Freshness.antt =====
-- The window of the timestamps: `(now - timestamp).abs() > ttl` of
-- backend/src/routes/federation/security.rs in 64 bits, as a release build computes it.
use lab_inventory.Common.{ℕ, ◌+◌, ◌^◌, ◌<◌, ◌≤◌, ◌≡◌, ◌⊎◌, true, arith}
use lab_inventory.Federation.Inbound.{is_fresh}

-- A timestamp that counts as fresh lies within the time to live of the present, before or after it,
-- or it is the one timestamp whose distance to the present, 2 ^ 63, is no i64. The present is not
-- before the time to live.
pub is_fresh_bounds :
    (now timestamp ttl_seconds : ℕ)
    → now < 2 ^ 63
    → timestamp < 2 ^ 64
    → ttl_seconds ≤ now
    → is_fresh now timestamp ttl_seconds ≡ true
    → ((timestamp ≤ now + ttl_seconds) × (now ≤ timestamp + ttl_seconds))
      ⊎ (timestamp ≡ now + 2 ^ 63)
unfolding is_fresh
is_fresh_bounds now timestamp ttl_seconds small wide past h = ground arith
