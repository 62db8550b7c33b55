-- ===== src/Profiler/Tests.antt =====
-- memu/implicit_profiler.py: a few messages and two profiles.
use fumemory.Base.{◌≡◌, refl, [], ◌∷◌}
use fumemory.Base.Dict
use fumemory.Base.Dict.{Dict}
use fumemory.Base.Texts.{start}
use fumemory.Profiler.{
  ImplicitProfiler, extracting, on_message, flush, extracted, Value, texts, scalar,
}
use fumemory.Profiler.Buffers.{
  HoldsLittle, Steps-HoldsLittle, chats, flushes, done, step, batch_lost,
}

abbrev fresh : ImplicitProfiler
fresh = record { buffers = []; flush_tasks = []; applied = [] }

abbrev busy : ImplicitProfiler
busy = record {
  buffers = [];
  flush_tasks = ("a", extracting ("I use vim" ∷ [])) ∷ [];
  applied = [];
}

abbrev known : Dict Value
known = ("tools", texts ("git" ∷ [])) ∷ ("zone", scalar "UTC") ∷ []

abbrev told : Dict Value
told = ("tools", texts ("git" ∷ "vim" ∷ [])) ∷ []

Steps-HoldsLittle_example : HoldsLittle (flush "a" (on_message "a" "hi" fresh))
Steps-HoldsLittle_example =
    Steps-HoldsLittle
      (step (chats "a" "hi") (step (flushes "a") (done (flush "a" (on_message "a" "hi" fresh))))) tt

batch_lost_example :
    (extracted "a" (flush "a" (on_message "a" "hi" busy))).applied ≡ ("a", "hi" ∷ []) ∷ []
unfolding Dict.get start
batch_lost_example = (batch_lost "a" "hi" ("I use vim" ∷ []) busy refl refl refl refl).0
