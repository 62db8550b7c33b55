-- ===== src/Isolation/Tests.antt =====
-- memu/context_isolation.py on small payloads.
use fumemory.Base.{ℕ, ◌≡◌, refl, [], ◌∷◌}
use fumemory.Base.Dict
use fumemory.Base.Dict.{Dict}
use fumemory.Base.Lists.{All, contains}
use fumemory.Base.Texts.{size}
use fumemory.Isolation.{
  Value, text, dict, other, no_fields, field, count_fields, without, strip_entry,
  strip_context_bleed,
}
use fumemory.Isolation.Clean.{Clean, strip_context_bleed_lem}

abbrev payload : Dict Value
payload =
    ("context_snapshot", dict no_fields)
    ∷ ("title", text "Fix")
    ∷ ("env", dict (field "blackboard_entries" (other "[]") (field "PATH" (text "/bin") no_fields)))
    ∷ []

stripped :
    strip_context_bleed payload []
    ≡ ("title", text "Fix") ∷ ("env", dict (field "PATH" (text "/bin") no_fields)) ∷ []
unfolding strip_context_bleed strip_entry contains Dict.put size without
stripped = refl

-- A snapshot inside of the metadata stays.
leaked :
    strip_context_bleed
      (("metadata", dict (field "context_snapshot" (other "1") no_fields)) ∷ [])
      []
    ≡ ("metadata", dict (field "context_snapshot" (other "1") no_fields)) ∷ []
unfolding strip_context_bleed strip_entry contains count_fields Dict.put
leaked = refl

strip_context_bleed_lem_example : All Clean (strip_context_bleed payload [])
strip_context_bleed_lem_example = strip_context_bleed_lem payload

abbrev thousand : Dict Value → ℕ
thousand d = 1000
