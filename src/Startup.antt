-- ===== src/Startup.antt =====
-- backend/src/main.rs and backend/src/cli.rs: the arguments, the workers and the start.
pub mod Workers
pub mod Start
pub mod Launch
pub mod Exits
pub mod Process
pub mod Opening
use denis.Base.{
  ℕ, zero, suc, ◌+◌, ◌-◌, ◌%◌, max, Option, none, some, List, [], ◌∷◌, length, get_elem?, leb,
  if◌then◌else◌, Bool,
}
use denis.Config.{SocketAddr}
use denis.Text.{Str}

pub data Runtime : Type 0 where
  monoio tokio : Runtime

pub record AnalyticsArgs : Type 0 where
  pub clickhouse : Bool
  pub prometheus : Bool

pub record DnsArgs : Type 0 where
  pub dns_bind : SocketAddr
  pub runtime : Runtime
  pub dns_workers : Option ℕ
  pub other_workers : ℕ

pub record ApiArgs : Type 0 where
  pub api_bind : SocketAddr

pub record UpstreamArgs : Type 0 where
  pub servers : List SocketAddr
  pub timeout_ms : ℕ

pub record RedisArgs : Type 0 where
  pub redis_url : Str
  pub cache_capacity : ℕ

pub record DatabaseArgs : Type 0 where
  pub database_url : Str
  pub max_connections : ℕ

pub record KafkaArgs : Type 0 where
  pub kafka_brokers : Str

pub record ClickhouseArgs : Type 0 where
  pub clickhouse_url : Str
  pub clickhouse_user : Str
  pub clickhouse_password : Str

pub record Cli : Type 0 where
  pub dns : DnsArgs
  pub api : ApiArgs
  pub upstream : UpstreamArgs
  pub redis : RedisArgs
  pub database : DatabaseArgs
  pub kafka : KafkaArgs
  pub clickhouse : ClickhouseArgs
  pub analytics : AnalyticsArgs
  pub verbose : ℕ

module _ {Core : Type 0} where
  -- The number of cores that `core_affinity` lists, or else the parallelism that the system
  -- reports.
  unfoldable pub total_cores : Option (List Core) → Option ℕ → ℕ
  total_cores (some cores) parallelism = length cores
  total_cores none (some n) = n
  total_cores none none = 1

  -- The core for a number; the outer `none` is the panic of `% 0` on an empty list.
  unfoldable pub pin_at : Option (List Core) → ℕ → Option (Option Core)
  pin_at none i = some none
  pin_at (some []) i = none
  pin_at (some (c ∷ cores)) i = some (get_elem? (c ∷ cores) (i % length (c ∷ cores)))

  abbrev cons_pin : Option (Option Core) → Option (List (Option Core)) → Option (List (Option Core))
  cons_pin (some pin) (some pins) = some (pin ∷ pins)
  cons_pin (some pin) none = none
  cons_pin none pins = none

  -- `(first..first + n).map(pin_at)`, collected.
  unfoldable pub pins_from : Option (List Core) → ℕ → ℕ → Option (List (Option Core))
  pins_from cores first zero = some []
  pins_from cores first (suc n) = cons_pin (pin_at cores first) (pins_from cores (suc first) n)

unfoldable pub tokio_workers : DnsArgs → ℕ
tokio_workers args = max args.other_workers 1

abbrev asked_or : Option ℕ → ℕ → ℕ
asked_or (some n) d = n
asked_or none d = d

-- `saturating_sub` stops at 0, as the subtraction here does.
unfoldable pub datapath_workers : DnsArgs → ℕ → ℕ
datapath_workers args total = max (asked_or args.dns_workers (max (total - tokio_workers args) 1)) 1

module _ {Core : Type 0} where
  -- `dp_pins` and `tk_pins`
  unfoldable pub dp_pins : DnsArgs → Option (List Core) → Option ℕ → Option (List (Option Core))
  dp_pins args cores parallelism =
      pins_from cores 0 (datapath_workers args (total_cores cores parallelism))

  unfoldable pub tk_pins : DnsArgs → Option (List Core) → Option ℕ → Option (List (Option Core))
  tk_pins args cores parallelism =
      pins_from cores (datapath_workers args (total_cores cores parallelism)) (tokio_workers args)
