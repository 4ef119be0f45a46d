-- ===== src/Runtime/Reload.antt =====
-- internal/core/gateway_runtime.go: the configuration file, which is loaded on request or by a watcher
-- that looks at it at every tick. A tick runs as one step, and a watcher that was stopped makes none.
-- What a disk says of a path is the time of the file's last change and the configuration that `Load`
-- of internal/config/config.go (Config.File.load) makes of it; `none` is an error.
pub mod Steps
pub mod Current
use Prim.Native.String.{String}
use yuelaiengine_gateway.Common.{
  ℕ, Option, none, some, List, [], ◌∷◌, ◌++◌, Bytes, lit, is_empty, trim_space, ltb, ℤ, pos_part,
  ◌==◌, if◌then◌else◌,
}
use yuelaiengine_gateway.Config.{GatewayConfig}
use yuelaiengine_gateway.LoadBalancer.ConsistentHash.{HashRingEntry}
use yuelaiengine_gateway.Runtime.{Error, Gateway, apply_config}

pub record ConfigDisk : Type 0 where
  pub modified : Bytes → Option ℕ
  pub loaded : Bytes → Option GatewayConfig

pub data ReloadError : Type 0 where
  not_loaded : ReloadError
  not_applied : Error → ReloadError

-- The variables of the goroutine; the period of its ticks is in nanoseconds.
pub record Watcher : Type 0 where
  pub config_path : Bytes
  pub interval : ℤ
  pub last_mod_time : ℕ

-- The gateway with its watcher, if there is one that `reloadCancel` stops.
pub record Watched : Type 0 where
  pub gateway : Gateway
  pub watcher : Option Watcher

unfoldable pub set_config_path : Bytes → Gateway → Gateway
set_config_path path g =
    if is_empty (trim_space path) then g else record g { reload_path = trim_space path }

-- The path to load: the one given, or else the last one, or else the default.
abbrev pub reload_path_of : Bytes → Gateway → Bytes
reload_path_of path g =
    if is_empty path
    then (if is_empty g.reload_path then lit "./configs/config.yml" else g.reload_path)
    else path

abbrev pub keep_path : Bytes → Gateway × Option Error → Gateway × Option ReloadError
keep_path path (g, some e) = (g, some (not_applied e))
keep_path path (g, none) = (record g { reload_path = path }, none)

abbrev pub stop_auto_reload : Watched → Watched
stop_auto_reload w = record w { watcher = none }

abbrev pub interval_or_default : ℤ → ℤ
interval_or_default interval = if pos_part interval == 0 then ℤ.pos 3000000000 else interval

-- What the goroutine begins with; the zero time is 0.
abbrev pub new_watcher : Bytes → ℤ → ConfigDisk → Watcher
new_watcher config_path interval disk = record {
  config_path = config_path;
  interval = interval_or_default interval;
  last_mod_time = elim (disk.modified config_path) [ none ↦ 0 | some time ↦ time ];
}

unfoldable pub start_auto_reload : Bytes → ℤ → ConfigDisk → Watched → Watched
start_auto_reload config_path interval disk w = if is_empty config_path then w else record {
  gateway = record w.gateway { reload_path = config_path };
  watcher = some (new_watcher config_path interval disk);
}

module _ (sort : List HashRingEntry → List HashRingEntry)
    (parse_url : Bytes → Option (Bytes × Bytes)) (parse_path : Bytes → Option Bytes) where
  -- After `config.Load`.
  abbrev pub after_load : ℕ → Bytes → Option GatewayConfig → Gateway → Gateway × Option ReloadError
  after_load now path none g = (g, some not_loaded)
  after_load now path (some cfg) g =
      keep_path path (apply_config sort parse_url parse_path now cfg (lit "reload:" ++ path) g)

  abbrev pub load_and_apply : ℕ → Bytes → ConfigDisk → Gateway → Gateway × Option ReloadError
  load_and_apply now path disk g = after_load now path (disk.loaded path) g

  unfoldable pub reload_from_file : ℕ → Bytes → ConfigDisk → Gateway → Gateway × Option ReloadError
  reload_from_file now path disk g = load_and_apply now (reload_path_of path g) disk g

  abbrev pub after_reload : ℕ → Watcher → Gateway × Option ReloadError → Watched
  after_reload time x (g, some e) = record { gateway = g; watcher = some x }
  after_reload time x (g, none) = record {
    gateway = g;
    watcher = some (record x { last_mod_time = time });
  }

  -- After `os.Stat`.
  abbrev pub check_file : ℕ → ConfigDisk → Watcher → Option ℕ → Watched → Watched
  check_file now disk x none w = w
  check_file now disk x (some time) w =
      if ltb x.last_mod_time time
      then after_reload time x (reload_from_file now x.config_path disk w.gateway)
      else w

  abbrev pub watch : ℕ → ConfigDisk → Option Watcher → Watched → Watched
  watch now disk none w = w
  watch now disk (some x) w = check_file now disk x (disk.modified x.config_path) w

  unfoldable pub tick : ℕ → ConfigDisk → Watched → Watched
  tick now disk w = watch now disk w.watcher w
