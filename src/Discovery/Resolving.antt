-- ===== src/Discovery/Resolving.antt =====
-- A lazy plugin is loaded and checked once.
use tz_oss_interop.Prelude.{some, ◌≡◌, arith}
use tz_oss_interop.Errors.{Result, ok}
use tz_oss_interop.Discovery.{PluginClass, LazyPlugin, resolve}

resolve-some :
    (lazy : LazyPlugin) {cls : PluginClass}
    → lazy.resolved ≡ some cls
    → resolve lazy ≡ ok (cls, lazy)
unfolding resolve
resolve-some lazy held = ground arith

resolve-resolved :
    (lazy : LazyPlugin) {cls : PluginClass} {after : LazyPlugin}
    → resolve lazy ≡ ok (cls, after)
    → after.resolved ≡ some cls
unfolding resolve
resolve-resolved lazy returned = ground arith

-- A plugin that resolved once gives the same class ever after, unchanged, whatever loading it
-- would give by then.
pub resolve_again :
    (lazy : LazyPlugin) (load : Result PluginClass) {cls : PluginClass} {after : LazyPlugin}
    → resolve lazy ≡ ok (cls, after)
    → resolve (record after { load = load }) ≡ ok (cls, record after { load = load })
resolve_again lazy load {after = after} returned =
    resolve-some (record after { load = load }) (resolve-resolved lazy returned)
