-- ===== src/Debug.antt =====
-- internal/debug/debug.go: the paths of the debug server. The handlers are those of net/http/pprof
-- and expvar.
use jumble.Shared.{String, List, [], ◌∷◌}

pub data Handler : Type 0 where
  index cmdline profile symbol trace vars : Handler

-- Register
abbrev pub register : List (String × Handler)
register =
    ("/debug/pprof/", index)
    ∷ ("/debug/pprof/cmdline", cmdline)
    ∷ ("/debug/pprof/profile", profile)
    ∷ ("/debug/pprof/symbol", symbol)
    ∷ ("/debug/pprof/trace", trace)
    ∷ ("/debug/vars/", vars)
    ∷ []
