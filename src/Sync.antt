-- ===== src/Sync.antt =====
-- sync.rs: the configuration and the state of `SyncManager`, over any transport.
pub mod Send
pub mod Receive
pub mod Logged
pub mod Hears
pub mod Said
pub mod Remarks
pub mod Follow
pub mod Link
pub mod Kept
pub mod Recorded
pub mod Resync
pub mod Reset
pub mod Memory
pub mod Dialogue
pub mod Metered
pub mod Limits
pub mod Paced
pub mod Faults
mod Examples
use tx2_link.Common.{ℕ, ◌-◌, ◌*◌, leb, Bool, true, false, Option, none, some, if◌then◌else◌}
use tx2_link.Error.{Result}
use tx2_link.RateLimit.Window.{
  Instant, Duration, RateLimiter, RateLimitConfig, default_config as default_limits, RateLimitStats,
}
use tx2_link.RateLimit.Window as Window
use tx2_link.Compression.Delta.{DeltaCompressor, reset}
use tx2_link.Compression.Delta as Compressor
use tx2_link.Schema.{SchemaVersion}
use tx2_link.Schema.Registry.{SchemaRegistry}
use tx2_link.Schema.Registry as Registry
use tx2_link.Transport.{Transport}

pub data SyncMode : Type 0 where
  full delta manual : SyncMode

pub record SyncConfig : Type 0 where
  pub mode : SyncMode
  pub sync_interval : Duration
  pub enable_rate_limiting : Bool
  pub rate_limit_config : RateLimitConfig
  pub enable_field_compression : Bool
  pub auto_reconnect : Bool
  pub max_reconnect_attempts : ℕ
  pub reconnect_delay : Duration

abbrev pub default_config : SyncConfig
default_config = record {
  mode = SyncMode.delta;
  sync_interval = 100_000_000;
  enable_rate_limiting = true;
  rate_limit_config = default_limits;
  enable_field_compression = true;
  auto_reconnect = false;
  max_reconnect_attempts = 3;
  reconnect_delay = 1_000_000_000;
}

abbrev pub with_mode : SyncMode → SyncConfig → SyncConfig
with_mode mode c = record c { mode = mode }

abbrev pub with_sync_interval : Duration → SyncConfig → SyncConfig
with_sync_interval interval c = record c { sync_interval = interval }

abbrev pub with_rate_limiting : Bool → SyncConfig → SyncConfig
with_rate_limiting enabled c = record c { enable_rate_limiting = enabled }

abbrev pub with_rate_limit_config : RateLimitConfig → SyncConfig → SyncConfig
with_rate_limit_config config c = record c { rate_limit_config = config }

abbrev pub compress_fields : Bool → SyncConfig → SyncConfig
compress_fields enabled c = record c { enable_field_compression = enabled }

abbrev pub with_auto_reconnect : Bool → ℕ → SyncConfig → SyncConfig
with_auto_reconnect enabled max_attempts c = record c {
  auto_reconnect = enabled;
  max_reconnect_attempts = max_attempts;
}

pub record SyncManager (T : Type 0) : Type 0 where
  pub transport : T
  pub config : SyncConfig
  pub delta_compressor : DeltaCompressor
  pub rate_limiter : Option RateLimiter
  pub schema_registry : SchemaRegistry
  pub last_sync : Option Instant
  pub sync_count : ℕ
  pub error_count : ℕ
  pub reconnect_attempts : ℕ
  pub schema_version : SchemaVersion

pub record SyncStats : Type 0 where
  pub sync_count : ℕ
  pub error_count : ℕ
  pub last_sync : Option Instant
  pub rate_limiter_stats : Option RateLimitStats
  pub reconnect_attempts : ℕ

module _ {T : Type 0} where
  unfoldable pub new : T → SyncConfig → SyncManager T
  new transport config = record {
    transport = transport;
    config = config;
    delta_compressor = Compressor.with_field_compression config.enable_field_compression;
    rate_limiter =
        if config.enable_rate_limiting then some (Window.new config.rate_limit_config) else none;
    schema_registry = Registry.new;
    last_sync = none;
    sync_count = 0;
    error_count = 0;
    reconnect_attempts = 0;
    schema_version = 1;
  }

  -- Time since the last sync, at the instant `now`; it is 0 if `now` lies before.
  unfoldable pub should_sync : Instant → SyncManager T → Bool
  should_sync now m = elim m.config.mode [
    | SyncMode.manual ↦ false
    | _ ↦ elim m.last_sync [ some last ↦ leb m.config.sync_interval (now - last) | none ↦ true ]
  ]

  unfoldable pub get_stats : SyncManager T → SyncStats
  get_stats m = record {
    sync_count = m.sync_count;
    error_count = m.error_count;
    last_sync = m.last_sync;
    rate_limiter_stats = elim m.rate_limiter [ none ↦ none | some l ↦ some (Window.get_stats l) ];
    reconnect_attempts = m.reconnect_attempts;
  }

  pub get_schema_registry : SyncManager T → SchemaRegistry
  get_schema_registry m = m.schema_registry

  abbrev pub set_schema_version : SchemaVersion → SyncManager T → SyncManager T
  set_schema_version version m = record m { schema_version = version }

  pub get_schema_version : SyncManager T → SchemaVersion
  get_schema_version m = m.schema_version

  unfoldable pub reset_delta_compressor : SyncManager T → SyncManager T
  unfolding reset
  reset_delta_compressor m = record m { delta_compressor = reset m.delta_compressor }

module _ {T : Type 0} ⦃transport : Transport T⦄ where
  abbrev pub is_connected : SyncManager T → Bool
  is_connected m = transport.is_connected m.transport

  unfoldable pub close : SyncManager T → Result (Unit {0}) × SyncManager T
  close m = let (r, t) = transport.close m.transport in (r, record m { transport = t })
