-- ===== src/Profiler/Merge.antt =====
-- memu/implicit_profiler.py: what a merged profile says under each key.
use fumemory.Base.{
  String, str_eq, eq_iff, ◌≡◌, refl, sym, ap, ap2, ◌∙◌, true, Option, none, some, [], ◌∷◌,
  if◌then◌else◌, arith, Bool-cases, inl, inr,
}
use fumemory.Base.Dict
use fumemory.Base.Dict.{Dict, get-put}
use fumemory.Base.Dict.Keys.{has_key, is_keyed, get-has_key}
use fumemory.Profiler.{Value, merged_with, merge_profile}

-- The value of a key that the change has, merged with the older one.
abbrev pub changed : Option Value → Option Value → Option Value
changed old none = old
changed old (some value) = some (merged_with value old)

-- Under each key a merged profile has the older value where the change has none, the new value where
-- there was none, and the merge of the two where there are both; no key is lost.
merge_profile_lem :
    (current diff : Dict Value) (key : String)
    → is_keyed diff ≡ true
    → Dict.get (merge_profile current diff) key ≡ changed (Dict.get current key) (Dict.get diff key)
unfolding merge_profile Dict.get is_keyed
merge_profile_lem current [] key h = refl
merge_profile_lem current ((k, v) ∷ diff) key h =
    let value = merged_with v (Dict.get current k) in
    let rest = merge_profile_lem (Dict.put current k value) diff key (ground (arith, h)) in
    let put : Dict.get (Dict.put current k value) key
        ≡ (if str_eq k key then some value else Dict.get current key) =
      get-put current k value key in
    elim (Bool-cases (str_eq k key)) [
      | inl e ↦
          let same : k ≡ key = (eq_iff k key).0 e in
          let gone : Dict.get diff key ≡ none =
            get-has_key diff key (ap (λ s. has_key s diff) (sym same) ∙ ground (arith, h)) in
          rest
          ∙ ap2 changed (put ∙ rw e refl) gone
          ∙ ap (λ s. some (merged_with v (Dict.get current s))) same
          ∙ sym
              (ap (λ b. changed (Dict.get current key) (if b then some v else Dict.get diff key)) e)
      | inr e ↦
          rest
          ∙ ap (λ o. changed o (Dict.get diff key)) (put ∙ rw e refl)
          ∙ sym
              (ap (λ b. changed (Dict.get current key) (if b then some v else Dict.get diff key)) e)
    ]
