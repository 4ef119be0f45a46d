-- ===== src/Runtime/Reload/Steps.antt =====
-- One tick of the watcher, and ticks at which there is nothing to take up.
use mathlib.Core.Path.{subst}
use yuelaiengine_gateway.Common.{
  ℕ, ◌<◌, ◌⊎◌, inl, inr, All, false, Option, none, some, List, [], ◌∷◌, ◌≡◌, refl, ap, sym, ◌∙◌,
  Bytes, is_empty, ltb, Bool-cases,
}
use yuelaiengine_gateway.Config.{GatewayConfig}
use yuelaiengine_gateway.LoadBalancer.ConsistentHash.{HashRingEntry}
use yuelaiengine_gateway.Runtime.{Gateway}
use yuelaiengine_gateway.Runtime.Reload.{
  ConfigDisk, ReloadError, Watcher, Watched, reload_path_of, reload_from_file, load_and_apply,
  after_reload, check_file, watch, after_load, tick,
}

abbrev pub IsBefore : Option ℕ → ℕ → Type 0
IsBefore none time = Unit
IsBefore (some t) time = t < time

-- The file was changed last before the time, or cannot be looked at, or cannot be loaded.
abbrev pub IsPassed : Bytes → ℕ → ConfigDisk → Type 0
IsPassed path time disk = IsBefore (disk.modified path) time ⊎ (disk.loaded path ≡ none)

-- The watcher looks at the path and has taken up nothing as new as the time.
pub record IsBehind (path : Bytes) (time : ℕ) (w : Watched) : Type 0 where
  pub watcher : Watcher
  pub runs : w.watcher ≡ some watcher
  pub at_path : watcher.config_path ≡ path
  pub behind : watcher.last_mod_time < time

module _ (sort : List HashRingEntry → List HashRingEntry)
    (parse_url : Bytes → Option (Bytes × Bytes)) (parse_path : Bytes → Option Bytes) where
  abbrev pub tick_all : List (ℕ × ConfigDisk) → Watched → Watched
  tick_all [] w = w
  tick_all ((now, disk) ∷ ticks) w = tick_all ticks (tick sort parse_url parse_path now disk w)

  after_reload-IsBehind :
      (path : Bytes) (time t : ℕ) (x : Watcher) (r : Gateway × Option ReloadError)
      → x.config_path ≡ path
      → x.last_mod_time < time
      → t < time
      → IsBehind path time (after_reload sort parse_url parse_path t x r)
  after_reload-IsBehind path time t x (g, none) p b n = record {
    watcher = record x { last_mod_time = t };
    runs = refl;
    at_path = p;
    behind = n;
  }
  after_reload-IsBehind path time t x (g, some e) p b n = record {
    watcher = x;
    runs = refl;
    at_path = p;
    behind = b;
  }

  pub check_file-IsBehind :
      (path : Bytes) (time now : ℕ) (disk : ConfigDisk) (x : Watcher) (found : Option ℕ)
      (w : Watched)
      → w.watcher ≡ some x
      → x.config_path ≡ path
      → x.last_mod_time < time
      → IsBefore found time
      → IsBehind path time (check_file sort parse_url parse_path now disk x found w)
  check_file-IsBehind path time now disk x none w r p b n = record {
    watcher = x;
    runs = r;
    at_path = p;
    behind = b;
  }
  check_file-IsBehind path time now disk x (some t) w r p b n =
      elim (Bool-cases (ltb x.last_mod_time t)) [
        | inl e ↦ simp e (
            after_reload-IsBehind path time t x
              (reload_from_file sort parse_url parse_path now x.config_path disk w.gateway) p b n)
        | inr e ↦ simp e (record { watcher = x; runs = r; at_path = p; behind = b })
      ]

  -- The step of a watcher that looks at a path.
  pub tick_lem :
      (path : Bytes) (now : ℕ) (disk : ConfigDisk) (w : Watched) (x : Watcher) (found : Option ℕ)
      → w.watcher ≡ some x
      → x.config_path ≡ path
      → disk.modified path ≡ found
      → tick sort parse_url parse_path now disk w
        ≡ check_file sort parse_url parse_path now disk x found w
  unfolding tick
  tick_lem path now disk w x found r p f =
      ap (λ (o : Option Watcher). watch sort parse_url parse_path now disk o w) r
      ∙ ap (λ (o : Option ℕ). check_file sort parse_url parse_path now disk x o w)
          (ap disk.modified p ∙ f)

  pub reload_from_file_lem :
      (now : ℕ) (path : Bytes) (disk : ConfigDisk) (g : Gateway) (cfg : Option GatewayConfig)
      → is_empty path ≡ false
      → disk.loaded path ≡ cfg
      → reload_from_file sort parse_url parse_path now path disk g
        ≡ after_load sort parse_url parse_path now path cfg g
  unfolding reload_from_file
  reload_from_file_lem now path disk g cfg named e =
      let here : reload_path_of path g ≡ path = simp named in
      ap (λ (p : Bytes). load_and_apply sort parse_url parse_path now p disk g) here
      ∙ ap (λ (o : Option GatewayConfig). after_load sort parse_url parse_path now path o g) e

  -- What cannot be loaded leaves the gateway and the watcher as they are.
  tick-not_loaded :
      (path : Bytes) (now : ℕ) (disk : ConfigDisk) (w : Watched) (x : Watcher) (found : Option ℕ)
      → w.watcher ≡ some x
      → x.config_path ≡ path
      → is_empty path ≡ false
      → disk.loaded path ≡ none
      → check_file sort parse_url parse_path now disk x found w ≡ w
  tick-not_loaded path now disk w x none r p named gone = refl
  tick-not_loaded path now disk w x (some t) r p named gone =
      elim (Bool-cases (ltb x.last_mod_time t)) [
        | inr e ↦ simp e
        | inl e ↦ simp e (
            ap
              (λ (q : Bytes).
                after_reload sort parse_url parse_path t x
                  (reload_from_file sort parse_url parse_path now q disk w.gateway))
              p
            ∙ ap (after_reload sort parse_url parse_path t x)
                (reload_from_file_lem now path disk w.gateway none named gone)
            ∙ ap (λ (o : Option Watcher). record { gateway = w.gateway; watcher = o }) (sym r))
      ]

  tick-IsBehind :
      (path : Bytes) (time now : ℕ) (disk : ConfigDisk) (w : Watched)
      → is_empty path ≡ false
      → IsBehind path time w
      → IsPassed path time disk
      → IsBehind path time (tick sort parse_url parse_path now disk w)
  tick-IsBehind path time now disk w named b n =
      let found = disk.modified path in
      let step = tick_lem path now disk w b.watcher found b.runs b.at_path refl in
      elim n [
        | inl older ↦ subst (IsBehind path time) (sym step) (
            check_file-IsBehind path time now disk b.watcher found w b.runs b.at_path b.behind
              older)
        | inr gone ↦
            subst (IsBehind path time)
              (sym (
                step ∙ tick-not_loaded path now disk w b.watcher found b.runs b.at_path named gone))
              b
      ]

  pub tick_all-IsBehind :
      (path : Bytes) (time : ℕ) (ticks : List (ℕ × ConfigDisk)) (w : Watched)
      → is_empty path ≡ false
      → IsBehind path time w
      → All (λ (t : ℕ × ConfigDisk). IsPassed path time t.1) ticks
      → IsBehind path time (tick_all ticks w)
  tick_all-IsBehind path time [] w named b passed = b
  tick_all-IsBehind path time ((now, disk) ∷ ticks) w named b (first, passed) =
      tick_all-IsBehind path time ticks (tick sort parse_url parse_path now disk w) named
        (tick-IsBehind path time now disk w named b first) passed
