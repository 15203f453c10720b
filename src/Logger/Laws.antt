-- ===== src/Logger/Laws.antt =====
-- What a call of pkg/logger/logger.go adds to the output.
use jumble.Shared.{
  ℕ, String, Bool, true, false, some, List, [], ◌∷◌, ◌++◌, map, ◌≡◌, ◌⊎◌, inl, inr, refl, ap,
  Bool-cases,
}
use jumble.Telemetry.{Values}
use jumble.Logger.{
  Level, at_most, Attr, Arg, text, shown, add, Source, source_name, Entry, new, create_handler,
  with_trace_id, write, log_at,
}

-- Arguments in pairs of a key and a value.
abbrev pub paired : List (String × Arg) → List Arg
paired [] = []
paired ((k, v) ∷ ps) = text k ∷ v ∷ paired ps

abbrev pub attr_of : String × Arg → Attr
attr_of (k, v) = record { key = k; value = shown v }

add-paired :
    (ps : List (String × Arg)) (k v : String)
    → add (paired ps ++ (text k ∷ text v ∷ []))
      ≡ map attr_of ps ++ (record { key = k; value = v } ∷ [])
unfolding add
add-paired [] k v = refl
add-paired ((k', v') ∷ ps) k v =
    ap (λ l. record { key = k'; value = shown v' } ∷ l) (add-paired ps k v)

module _ (callers : ℕ → Source) where
  -- The line of a call with paired arguments, through a logger that adds trace ids.
  abbrev pub line :
      String → (Values → String) → Values → Level → ℕ → String → List (String × Arg) → Entry
  line service trace_id_fn ctx level caller msg ps = record {
    level = level;
    file = source_name (callers caller);
    msg = msg;
    attrs =
        record { key = "service"; value = service }
        ∷ (map attr_of ps ++ (record { key = "traceID"; value = trace_id_fn ctx } ∷ []));
  }

  -- A call whose arguments are pairs of keys and values, through a logger that is made with a
  -- trace function, adds exactly one line, with the service first, the pairs in order, and last
  -- the trace id of the context, when the output is not discarded and the level is at least the
  -- logger's; otherwise it adds nothing.
  pub log_at-paired :
      (discards : Bool) (min_level : Level) (service : String) (f : Values → String) (level : Level)
      (ctx : Values) (caller : ℕ) (msg : String) (ps : List (String × Arg)) (out : List Entry)
      → ((discards ≡ false)
          × (at_most min_level level ≡ true)
          × (log_at callers level
                (new discards min_level service (some f))
                ctx
                caller
                msg
                (paired ps)
                out
              ≡ out ++ (line service f ctx level caller msg ps ∷ [])))
        ⊎ (((discards ≡ true) ⊎ (at_most min_level level ≡ false))
            × (log_at callers level
                  (new discards min_level service (some f))
                  ctx
                  caller
                  msg
                  (paired ps)
                  out
                ≡ out))
  unfolding log_at write new create_handler with_trace_id
  log_at-paired discards min_level service f level ctx caller msg ps out =
      elim (Bool-cases discards) [
        | inl quiet ↦ rw quiet (inr (inl refl, refl))
        | inr loud ↦ elim (Bool-cases (at_most min_level level)) [
          | inr below ↦ rw (loud, below) (inr (inr refl, refl))
          | inl enough ↦ rw (loud, enough, add-paired ps "traceID" (f ctx)) (inl (refl, refl, refl))
        ]
      ]
