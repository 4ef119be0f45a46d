-- ===== src/Plugin/Chain.antt =====
-- Which plugins of a chain run, and what the chain comes to.
use yuelaiengine_gateway.Common.{
  Bool, true, false, Option, none, some, List, [], ◌∷◌, ◌++◌, ◌≡◌, refl, inl, inr, ap, sym, ◌∙◌,
  arith, lit, is_empty, Map, get, Bool-cases, Option-cases,
}
use yuelaiengine_gateway.Config.{PluginSpec}
use yuelaiengine_gateway.Plugin.{
  Exchange, Verdict, Plugin, write, text_of, Error, invalid_spec, not_registered, execute_chain,
  after_plugin,
}

-- Each plugin of the list is registered, ran on what the one before it left, and let the request on.
pub data Passed (plugins : Map Plugin) : List PluginSpec → Exchange → Exchange → Type 0 where
  done : {x : Exchange} → Passed plugins [] x x
  passed :
      {spec : PluginSpec} {specs : List PluginSpec} {x y z : Exchange} (plugin : Plugin)
      → get (text_of (lit "name") spec) plugins ≡ some plugin
      → is_empty (text_of (lit "name") spec) ≡ false
      → plugin spec x ≡ (y, true, none)
      → Passed plugins specs y z
      → Passed plugins (spec ∷ specs) x z

-- How a spec ends a chain at an exchange: it has no name, its plugin is not registered, or its plugin
-- fails or refuses.
pub data Stops (plugins : Map Plugin) (spec : PluginSpec) (x : Exchange) (v : Verdict)
    : Type 0 where
  unnamed :
      is_empty (text_of (lit "name") spec) ≡ true
      → v ≡ (write 500 (lit "PLUGIN_CONFIG_INVALID") x, false, some invalid_spec)
      → Stops plugins spec x v
  unknown :
      get (text_of (lit "name") spec) plugins ≡ none
      → v ≡ (
        write 500 (lit "PLUGIN_NOT_FOUND") x,
        false,
        some (not_registered (text_of (lit "name") spec)),
      )
      → Stops plugins spec x v
  failed :
      (plugin : Plugin) (y : Exchange) (go_on : Bool) (e : Error)
      → get (text_of (lit "name") spec) plugins ≡ some plugin
      → plugin spec x ≡ (y, go_on, some e)
      → v ≡ (y, false, some e)
      → Stops plugins spec x v
  refused :
      (plugin : Plugin) (y : Exchange)
      → get (text_of (lit "name") spec) plugins ≡ some plugin
      → plugin spec x ≡ (y, false, none)
      → v ≡ (y, false, none)
      → Stops plugins spec x v

-- How a chain ends: all plugins passed, or those before one that stopped it, where those behind it
-- have no part in the verdict.
pub data Ended (plugins : Map Plugin) (specs : List PluginSpec) (x : Exchange) (v : Verdict)
    : Type 0 where
  all_passed :
      (y : Exchange) → Passed plugins specs x y → v ≡ (y, true, none) → Ended plugins specs x v
  stopped :
      (before : List PluginSpec) (spec : PluginSpec) (after : List PluginSpec) (y : Exchange)
      → specs ≡ before ++ spec ∷ after
      → Passed plugins before x y
      → Stops plugins spec y v
      → Ended plugins specs x v

execute_chain-cons :
    (plugins : Map Plugin) (spec : PluginSpec) (specs : List PluginSpec) (x : Exchange)
    (plugin : Plugin)
    → get (text_of (lit "name") spec) plugins ≡ some plugin
    → is_empty (text_of (lit "name") spec) ≡ false
    → execute_chain plugins (spec ∷ specs) x
      ≡ after_plugin (plugin spec x) (execute_chain plugins specs)
unfolding execute_chain
execute_chain-cons plugins spec specs x plugin g n = rw (n, g)

Ended-cons :
    (plugins : Map Plugin) (spec : PluginSpec) (specs : List PluginSpec) (x y : Exchange)
    (plugin : Plugin) (v : Verdict)
    → get (text_of (lit "name") spec) plugins ≡ some plugin
    → is_empty (text_of (lit "name") spec) ≡ false
    → plugin spec x ≡ (y, true, none)
    → Ended plugins specs y v
    → Ended plugins (spec ∷ specs) x v
Ended-cons plugins spec specs x y plugin v g n e (all_passed z p q) =
    all_passed z (passed plugin g n e p) q
Ended-cons plugins spec specs x y plugin v g n e (stopped before s after z q p t) =
    stopped (spec ∷ before) s after z (ap (λ (l : List PluginSpec). spec ∷ l) q)
      (passed plugin g n e p) t

-- What the verdict of a plugin that is there makes of the chain.
Ended-after :
    (plugins : Map Plugin) (spec : PluginSpec) (specs : List PluginSpec) (x : Exchange)
    (plugin : Plugin) (w : Verdict)
    → get (text_of (lit "name") spec) plugins ≡ some plugin
    → is_empty (text_of (lit "name") spec) ≡ false
    → plugin spec x ≡ w
    → ((y : Exchange) → Ended plugins specs y (execute_chain plugins specs y))
    → Ended plugins (spec ∷ specs) x (after_plugin w (execute_chain plugins specs))
unfolding after_plugin
Ended-after plugins spec specs x plugin (y, go_on, some err) g n e rest =
    stopped [] spec specs x refl done (failed plugin y go_on err g e refl)
Ended-after plugins spec specs x plugin (y, true, none) g n e rest =
    Ended-cons plugins spec specs x y plugin (execute_chain plugins specs y) g n e (rest y)
Ended-after plugins spec specs x plugin (y, false, none) g n e rest =
    stopped [] spec specs x refl done (refused plugin y g e refl)

-- A chain lets a request on when every plugin of it is registered and lets the request on, each
-- running on what the one before it left. Otherwise the verdict is that of the first spec that stops
-- it: an error response for a spec without a name or of a plugin that is not registered, and else what
-- the plugin itself answered; no later plugin runs.
pub execute_chain-Ended :
    (plugins : Map Plugin) (specs : List PluginSpec) (x : Exchange)
    → Ended plugins specs x (execute_chain plugins specs x)
unfolding execute_chain
execute_chain-Ended plugins [] x = all_passed x done refl
execute_chain-Ended plugins (spec ∷ specs) x =
    let rest = execute_chain-Ended plugins specs in
    elim (Bool-cases (is_empty (text_of (lit "name") spec))) [
      | inl n ↦ rw (n, execute_chain) (stopped [] spec specs x refl done (unnamed n refl))
      | inr n ↦ elim (Option-cases (get (text_of (lit "name") spec) plugins)) [
        | inl g ↦ rw (n, g, execute_chain) (stopped [] spec specs x refl done (unknown g refl))
        | inr (plugin, g) ↦
            rw (n, g, execute_chain)
              (Ended-after plugins spec specs x plugin (plugin spec x) g n refl rest)
      ]
    ]

-- A chain that lets a request on had every plugin let it on.
pub Passed-of_chain :
    (plugins : Map Plugin) (specs : List PluginSpec) (x y : Exchange) (err : Option Error)
    → execute_chain plugins specs x ≡ (y, true, err)
    → Passed plugins specs x y
Passed-of_chain plugins specs x y err e = split (execute_chain-Ended plugins specs x)
  where
    never : {z : Exchange} {r : Option Error} → ◌≡◌ {A = Verdict} (z, false, r) (y, true, err) → ⊥
    never h = ground arith

    split : Ended plugins specs x (execute_chain plugins specs x) → Passed plugins specs x y
    split (all_passed z p q) =
        let same : z ≡ y = ap (λ (v : Verdict). v.0) (sym q ∙ e) in rw (← same) p
    split (stopped b s a z q p (unnamed n t)) = absurd (never (sym t ∙ e))
    split (stopped b s a z q p (unknown g t)) = absurd (never (sym t ∙ e))
    split (stopped b s a z q p (failed f w c r g t u)) = absurd (never (sym u ∙ e))
    split (stopped b s a z q p (refused f w g t u)) = absurd (never (sym u ∙ e))
