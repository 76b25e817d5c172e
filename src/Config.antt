-- ===== src/Config.antt =====
-- go/hub_config.go: `HubConfig`, its defaults and `normalizeHubConfig`. A `time.Duration` is an int64
-- number of nanoseconds.
pub mod Normal
use go_stream.Prelude.{ℕ, ◌+◌, ◌*◌, ◌≤◌, ◌<◌, Bool, Option, none, some, Text, if◌then◌else◌}
use go_stream.Prelude.Int.{ℤ, pos, negsuc, leb_ℤ, double64}
use go_stream.Peer.{Peer, Func}

abbrev pub Duration : Type 0
Duration = ℤ

abbrev pub seconds : ℕ → Duration
seconds n = pos (n * 1_000_000_000)

-- `HubConfig`; a `ChannelAuthoriser` is asked with the peer as it stands, and answers by its struct and the
-- channel.
pub record HubConfig : Type 0 where
  pub heartbeat_interval : Duration
  pub pong_timeout : Duration
  pub write_timeout : Duration
  pub on_connect : Option Func
  pub on_disconnect : Option Func
  pub channel_authoriser : Option (Peer → Text → Bool)

abbrev pub default_hub_config : HubConfig
default_hub_config = record {
  heartbeat_interval = seconds 30;
  pong_timeout = seconds 60;
  write_timeout = seconds 10;
  on_connect = none;
  on_disconnect = none;
  channel_authoriser = none;
}

-- `if d == 0 { d = fallback }`.
unfoldable pub or_default : Duration → Duration → Duration
or_default (pos ℕ.zero) fallback = fallback
or_default (pos (ℕ.suc n)) fallback = pos (ℕ.suc n)
or_default (negsuc n) fallback = negsuc n

-- `if pong <= heartbeat { pong = heartbeat * 2 }`.
pub raise_pong : Duration → Duration → Duration
raise_pong heartbeat pong = if leb_ℤ pong heartbeat then double64 heartbeat else pong

unfoldable pub normalize_hub_config : HubConfig → HubConfig
normalize_hub_config config =
    let heartbeat = or_default config.heartbeat_interval default_hub_config.heartbeat_interval in
    record config {
      heartbeat_interval = heartbeat;
      pong_timeout =
          raise_pong heartbeat (or_default config.pong_timeout default_hub_config.pong_timeout);
      write_timeout = or_default config.write_timeout default_hub_config.write_timeout;
    }
