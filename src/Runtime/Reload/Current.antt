-- ===== src/Runtime/Reload/Current.antt =====
-- The watcher takes up every configuration that the file comes to hold.
use mathlib.Core.Path.{subst}
use yuelaiengine_gateway.Common.{
  ℕ, All, Bool, true, false, Option, none, some, List, [], ◌∷◌, ◌++◌, ◌≡◌, refl, ap, sym, ◌∙◌,
  arith, Bytes, lit, is_empty, ltb, lt→ltb, map, if◌then◌else◌,
}
use yuelaiengine_gateway.Config.{GatewayConfig}
use yuelaiengine_gateway.LoadBalancer.ConsistentHash.{HashRingEntry}
use yuelaiengine_gateway.Runtime.{Error, Gateway, apply_config}
use yuelaiengine_gateway.Runtime.Apply.{IsRunning}
use yuelaiengine_gateway.Runtime.Outcome.{
  IsAccepted, apply_config-IsAccepted_iff, apply_config-IsRunning,
}
use yuelaiengine_gateway.Runtime.Reload.Steps.{
  IsPassed, IsBehind, tick_all, tick_lem, reload_from_file_lem, tick_all-IsBehind,
}
use yuelaiengine_gateway.Runtime.Reload.{
  ConfigDisk, Watcher, Watched, keep_path, reload_from_file, after_reload, tick,
}

module _ (sort : List HashRingEntry → List HashRingEntry)
    (parse_url : Bytes → Option (Bytes × Bytes)) (parse_path : Bytes → Option Bytes) where
  -- The gateway runs what the file holds, and the watcher knows.
  pub record IsCurrent (now : ℕ) (path : Bytes) (time : ℕ) (cfg : GatewayConfig) (g : Gateway)
      (w : Watched) : Type 0 where
    pub running : IsRunning now cfg (lit "reload:" ++ path) g w.gateway
    pub reload_path : w.gateway.reload_path ≡ path
    pub watcher : Watcher
    pub runs : w.watcher ≡ some watcher
    pub at_path : watcher.config_path ≡ path
    pub seen : watcher.last_mod_time ≡ time

  keep_path-none :
      (path : Bytes) (r : Gateway × Option Error)
      → r.1 ≡ none
      → keep_path path r ≡ (record r.0 { reload_path = path }, none)
  keep_path-none path (g, none) e = refl
  keep_path-none path (g, some x) e = absurd (ground arith)

  reload_from_file-accepted :
      (now : ℕ) (path : Bytes) (disk : ConfigDisk) (g : Gateway) (cfg : GatewayConfig)
      → is_empty path ≡ false
      → disk.loaded path ≡ some cfg
      → IsAccepted parse_url parse_path cfg
      → (g' : Gateway) × (reload_from_file sort parse_url parse_path now path disk g ≡ (g', none))
        × IsRunning now cfg (lit "reload:" ++ path) g g'
        × (g'.reload_path ≡ path)
  reload_from_file-accepted now path disk g cfg named loaded a =
      let source = lit "reload:" ++ path in
      let fine = (apply_config-IsAccepted_iff sort parse_url parse_path now cfg source g).1 a in
      let ran = apply_config-IsRunning sort parse_url parse_path now cfg source g fine in
      let applied = apply_config sort parse_url parse_path now cfg source g in
      (
        record applied.0 { reload_path = path },
        reload_from_file_lem sort parse_url parse_path now path disk g (some cfg) named loaded
            ∙ keep_path-none path applied fine,
        record {
          config = ran.config;
          router = ran.router;
          limits = ran.limits;
          breakers = ran.breakers;
          history = ran.history;
        },
        refl,
      )

  tick-IsCurrent :
      (path : Bytes) (time now : ℕ) (disk : ConfigDisk) (cfg : GatewayConfig) (w : Watched)
      → IsBehind path time w
      → is_empty path ≡ false
      → disk.modified path ≡ some time
      → disk.loaded path ≡ some cfg
      → IsAccepted parse_url parse_path cfg
      → IsCurrent now path time cfg w.gateway (tick sort parse_url parse_path now disk w)
  tick-IsCurrent path time now disk cfg w b named modified loaded a =
      let (g', e, ran, at) = reload_from_file-accepted now path disk w.gateway cfg named loaded a in
      let x = b.watcher in
      let reload = λ (p : Bytes). reload_from_file sort parse_url parse_path now p disk w.gateway in
      let newer : ltb x.last_mod_time time ≡ true = lt→ltb x.last_mod_time time b.behind in
      let done : tick sort parse_url parse_path now disk w
          ≡ after_reload sort parse_url parse_path time x (g', none) =
        tick_lem sort parse_url parse_path path now disk w x (some time) b.runs b.at_path modified
        ∙ ap
            (λ (t : Bool).
              if t then after_reload sort parse_url parse_path time x (reload x.config_path) else w)
            newer
        ∙ ap (λ (p : Bytes). after_reload sort parse_url parse_path time x (reload p)) b.at_path
        ∙ ap (after_reload sort parse_url parse_path time x) e in
      subst (IsCurrent now path time cfg w.gateway) (sym done) (record {
        running = ran;
        reload_path = at;
        watcher = record b.watcher { last_mod_time = time };
        runs = refl;
        at_path = b.at_path;
        seen = refl;
      })

  tick-still :
      (path : Bytes) (time now : ℕ) (disk : ConfigDisk) (w : Watched) (x : Watcher)
      → w.watcher ≡ some x
      → x.config_path ≡ path
      → x.last_mod_time ≡ time
      → disk.modified path ≡ some time
      → tick sort parse_url parse_path now disk w ≡ w
  tick-still path time now disk w x r p s modified =
      let not_newer : ltb x.last_mod_time time ≡ false = ground arith in
      tick_lem sort parse_url parse_path path now disk w x (some time) r p modified ∙ simp not_newer

  -- However often the watcher has looked before, at a file that was older or could not be loaded: the
  -- first tick at which the file, changed later than what the watcher has taken up, holds a
  -- configuration that can be applied makes the gateway run it, recorded as a reload of the path, which
  -- becomes the gateway's path too. Further ticks change nothing until the file changes.
  pub tick_all-IsCurrent :
      (path : Bytes) (time now : ℕ) (ticks : List (ℕ × ConfigDisk)) (disk : ConfigDisk)
      (cfg : GatewayConfig) (times : List ℕ) (w : Watched)
      → IsBehind path time w
      → All (λ (t : ℕ × ConfigDisk). IsPassed path time t.1) ticks
      → is_empty path ≡ false
      → disk.modified path ≡ some time
      → disk.loaded path ≡ some cfg
      → IsAccepted parse_url parse_path cfg
      → let before = tick_all sort parse_url parse_path ticks w in
        let current = tick sort parse_url parse_path now disk before in
        IsCurrent now path time cfg before.gateway current
        × (tick_all sort parse_url parse_path (map (λ t. (t, disk)) times) current ≡ current)
  tick_all-IsCurrent path time now ticks disk cfg times w b passed named modified loaded a =
      let before = tick_all sort parse_url parse_path ticks w in
      let c =
        tick-IsCurrent path time now disk cfg before
          (tick_all-IsBehind sort parse_url parse_path path time ticks w named b passed) named
          modified loaded a in
      (
        c,
        still times (tick sort parse_url parse_path now disk before) c.watcher c.runs c.at_path
            c.seen,
      )
    where
      still :
          (ts : List ℕ) (v : Watched) (x : Watcher)
          → v.watcher ≡ some x
          → x.config_path ≡ path
          → x.last_mod_time ≡ time
          → tick_all sort parse_url parse_path (map (λ t. (t, disk)) ts) v ≡ v
      still [] v x r p s = refl
      still (t ∷ ts) v x r p s =
          ap (tick_all sort parse_url parse_path (map (λ u. (u, disk)) ts))
            (tick-still path time t disk v x r p s modified)
          ∙ still ts v x r p s
