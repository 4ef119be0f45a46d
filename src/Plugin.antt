-- ===== src/Plugin.antt =====
-- internal/plugin/manager.go: the chain of plugins that a request goes through, and
-- internal/plugin/httperr/httperr.go: the error responses. The manager swaps its map of plugins as a
-- whole, and a request is taken to see one such map. Messages and the bodies' text are left out.
pub mod Keys
pub mod Services
pub mod Chain
use Prim.Native.String.{String}
use yuelaiengine_gateway.Common.{
  ℕ, Bool, true, false, Option, none, some, List, [], ◌∷◌, Bytes, lit, is_empty, Map, get, put,
  if◌then◌else◌, ◌==◌,
}
use yuelaiengine_gateway.Http.{Request}
use yuelaiengine_gateway.Config.{PluginSpec, Value, text, texts, items, other}
use yuelaiengine_gateway.RateLimit
use yuelaiengine_gateway.CircuitBreaker

pub record Response : Type 0 where
  pub status : ℕ
  pub code : Bytes

-- What a request carries through the gateway: the services that plugins call, the request itself,
-- which a plugin may change, and the response if one is written.
pub record Exchange : Type 0 where
  pub rate_limit : RateLimit.Service
  pub circuit_breaker : CircuitBreaker.Service
  pub request : Request
  pub written : Option Response

pub data Error : Type 0 where
  invalid_spec plugin_config service_failed : Error
  not_registered : Bytes → Error

-- `httperr.Write`; a header that is written already stays.
unfoldable pub write : ℕ → Bytes → Exchange → Exchange
write status code x =
    let response : Response = record {
      status = if status == 0 then 500 else status;
      code = if is_empty code then lit "INTERNAL_ERROR" else code;
    } in
    record x { written = elim x.written [ none ↦ some response | some first ↦ some first ] }

-- `(continueChain, err)` with what became of the exchange.
abbrev pub Verdict : Type 0
Verdict = Exchange × Bool × Option Error

-- `Interface.Execute`
abbrev pub Plugin : Type 0
Plugin = PluginSpec → Exchange → Verdict

-- `v, ok := spec[key].(string)`, with "" where it is no text.
unfoldable pub text_of : Bytes → PluginSpec → Bytes
text_of key spec = elim (get key spec) [
  | none ↦ []
  | some (text s) ↦ s
  | some (texts _) ↦ []
  | some (items _) ↦ []
  | some other ↦ []
]

-- `Manager.Register`
unfoldable pub register : Bytes → Plugin → Map Plugin → Map Plugin
register name p plugins = put name p plugins

-- The end of a turn of the loop of `ExecuteChain`, with what the rest of the loop comes to.
unfoldable pub after_plugin : Verdict → (Exchange → Verdict) → Verdict
after_plugin (x, go_on, some e) rest = (x, false, some e)
after_plugin (x, true, none) rest = rest x
after_plugin (x, false, none) rest = (x, false, none)

-- `Manager.ExecuteChain`
unfoldable pub execute_chain : Map Plugin → List PluginSpec → Exchange → Verdict
execute_chain plugins [] x = (x, true, none)
execute_chain plugins (spec ∷ specs) x =
    let name = text_of (lit "name") spec in
    if is_empty name
    then (write 500 (lit "PLUGIN_CONFIG_INVALID") x, false, some invalid_spec)
    else (elim (get name plugins) [
      | none ↦ (write 500 (lit "PLUGIN_NOT_FOUND") x, false, some (not_registered name))
      | some plugin ↦ after_plugin (plugin spec x) (execute_chain plugins specs)
    ])
