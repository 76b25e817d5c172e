-- ===== src/Config/Normal.antt =====
-- What `normalizeHubConfig` guarantees.
use go_stream.Prelude.{ℕ, ◌-◌, ◌^◌, ◌<◌, ◌≡◌, ◌≢◌, refl, arith, inl, inr, Bool-cases}
use go_stream.Prelude.Int.{ℤ, pos, negsuc, ◌<ℤ◌, ◌≤ℤ◌, IsInt64, double64, leb_ℤ}
use go_stream.Config.{Duration, HubConfig, or_default, raise_pong, normalize_hub_config}

abbrev min_int64 : ℤ
min_int64 = negsuc (2 ^ 63 - 1)

-- `or_default` leaves no zero, so it does nothing twice.
or_default_idem :
    (d : Duration) (n : ℕ)
    → 0 < n
    → or_default (or_default d (pos n)) (pos n) ≡ or_default d (pos n)
unfolding or_default
or_default_idem (pos ℕ.zero) ℕ.zero h = absurd (omega arith)
or_default_idem (pos ℕ.zero) (ℕ.suc n) h = refl
or_default_idem (pos (ℕ.suc m)) n h = refl
or_default_idem (negsuc m) n h = refl

raise_pong_idem :
    (heartbeat pong : Duration)
    → raise_pong heartbeat (raise_pong heartbeat pong) ≡ raise_pong heartbeat pong
unfolding raise_pong
raise_pong_idem heartbeat pong = ground arith

-- The pong timeout outlasts a positive heartbeat whose double is an int64.
raise_pong_above :
    (heartbeat pong : Duration)
    → pos 0 <ℤ heartbeat
    → heartbeat <ℤ pos (2 ^ 62)
    → heartbeat <ℤ raise_pong heartbeat pong
unfolding raise_pong
raise_pong_above (pos n) pong h k = ground arith
raise_pong_above (negsuc n) pong h k = absurd (omega arith)

or_default_bounds :
    (d : Duration) (n : ℕ)
    → pos 0 ≤ℤ d
    → d <ℤ pos (2 ^ 62)
    → 0 < n
    → n < 2 ^ 62
    → (pos 0 <ℤ or_default d (pos n)) × (or_default d (pos n) <ℤ pos (2 ^ 62))
unfolding or_default
or_default_bounds (pos ℕ.zero) n h k low high = omega arith
or_default_bounds (pos (ℕ.suc m)) n h k low high = omega arith
or_default_bounds (negsuc m) n h k low high = absurd (omega arith)

-- With the heartbeat unset or positive, and below 2 ^ 62 ns, a normalised configuration has a positive
-- heartbeat, and a pong timeout that is longer than the heartbeat.
pub normalize_hub_config-pong :
    (config : HubConfig)
    → pos 0 ≤ℤ config.heartbeat_interval
    → config.heartbeat_interval <ℤ pos (2 ^ 62)
    → let normal = normalize_hub_config config in
      (pos 0 <ℤ normal.heartbeat_interval) × (normal.heartbeat_interval <ℤ normal.pong_timeout)
unfolding normalize_hub_config
normalize_hub_config-pong config h k =
    let (low, high) =
      or_default_bounds config.heartbeat_interval 30_000_000_000 h k (omega arith) (omega arith) in
    (low, raise_pong_above _ (or_default config.pong_timeout _) low high)

or_default_ne_zero : (d : Duration) (n : ℕ) → 0 < n → or_default d (pos n) ≢ pos 0
unfolding or_default
or_default_ne_zero (pos ℕ.zero) n h e = absurd (ground arith)
or_default_ne_zero (pos (ℕ.suc m)) n h e = absurd (ground arith)
or_default_ne_zero (negsuc m) n h e = cc

or_default_keep : (d : Duration) (n : ℕ) → d ≢ pos 0 → or_default d (pos n) ≡ d
unfolding or_default
or_default_keep (pos ℕ.zero) n h = absurd (h refl)
or_default_keep (pos (ℕ.suc m)) n h = refl
or_default_keep (negsuc m) n h = refl

or_default-IsInt64 :
    (d : Duration) (n : ℕ) → n < 2 ^ 63 → IsInt64 d → IsInt64 (or_default d (pos n))
unfolding or_default
or_default-IsInt64 (pos ℕ.zero) n h i = omega arith
or_default-IsInt64 (pos (ℕ.suc m)) n h i = i
or_default-IsInt64 (negsuc m) n h i = i

or_default-ne-min : (d : Duration) (n : ℕ) → d ≢ min_int64 → or_default d (pos n) ≢ min_int64
unfolding or_default
or_default-ne-min (pos ℕ.zero) n h e = cc
or_default-ne-min (pos (ℕ.suc m)) n h e = cc
or_default-ne-min (negsuc m) n h e = h e

double64_ne_zero : (d : Duration) → IsInt64 d → d ≢ pos 0 → d ≢ min_int64 → double64 d ≢ pos 0
double64_ne_zero (pos n) i z m e = ground arith
double64_ne_zero (negsuc n) i z m e = ground arith

raise_pong_ne_zero :
    (heartbeat pong : Duration)
    → IsInt64 heartbeat
    → heartbeat ≢ pos 0
    → heartbeat ≢ min_int64
    → pong ≢ pos 0
    → raise_pong heartbeat pong ≢ pos 0
unfolding raise_pong
raise_pong_ne_zero heartbeat pong i z m p = elim (Bool-cases (leb_ℤ pong heartbeat)) [
  | inl low ↦ rw low (double64_ne_zero heartbeat i z m)
  | inr high ↦ rw high p
]

-- `hub.Config()` normalises what `NewHub` has normalised before; this changes nothing, unless the
-- configured heartbeat is the smallest int64.
pub normalize_hub_config_idem :
    (config : HubConfig)
    → IsInt64 config.heartbeat_interval
    → config.heartbeat_interval ≢ min_int64
    → normalize_hub_config (normalize_hub_config config) ≡ normalize_hub_config config
unfolding normalize_hub_config
normalize_hub_config_idem config i m = rw (
  or_default_idem config.heartbeat_interval 30_000_000_000 (omega arith),
  or_default_idem config.write_timeout 10_000_000_000 (omega arith),
  or_default_keep _ 60_000_000_000 (
      raise_pong_ne_zero _ (or_default config.pong_timeout (pos 60_000_000_000))
        (or_default-IsInt64 config.heartbeat_interval 30_000_000_000 (omega arith) i)
        (or_default_ne_zero config.heartbeat_interval 30_000_000_000 (omega arith))
        (or_default-ne-min config.heartbeat_interval 30_000_000_000 m)
        (or_default_ne_zero config.pong_timeout 60_000_000_000 (omega arith))),
  raise_pong_idem,
)
