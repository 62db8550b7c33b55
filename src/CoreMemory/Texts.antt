-- ===== src/CoreMemory/Texts.antt =====
-- memu/memory_agent.py: `sanitize_memory_payload`, and the methods of Python's texts that the memory
-- blocks are changed with.
use Prim.Native.Char.{code}
use fumemory.Base.{
  ℕ, ◌+◌, ◌==◌, leb, String, ◌<>◌, str_eq, Bool, true, false, ◌&&◌, ◌||◌, not, List, [], ◌∷◌,
  if◌then◌else◌,
}

-- `re.IGNORECASE`: the letters that match a small ASCII letter, with the four from beyond ASCII.
unfoldable pub fold_case : ℕ → ℕ
fold_case c =
    if leb b'A' c && leb c b'Z'
    then c + 32
    else if c == 304 || c == 305
    then b'i'
    else if c == 383
    then b's'
    else if c == 8490
    then b'k'
    else c

-- Does the text begin with the pattern, whatever the case?
unfoldable pub begins : String → String → Bool
unfolding fold_case
begins String.[] t = true
begins (String.◌∷◌ p ps) String.[] = false
begins (String.◌∷◌ p ps) (String.◌∷◌ c s) = fold_case (code p) == fold_case (code c) && begins ps s

-- `pattern.search(text)`
unfoldable pub search_text : String → String → Bool
unfolding begins
search_text p String.[] = begins p String.[]
search_text p (String.◌∷◌ c s) = begins p (String.◌∷◌ c s) || search_text p s

unfoldable pub matches_any : List String → String → Bool
unfolding search_text
matches_any [] text = false
matches_any (p ∷ ps) text = search_text p text || matches_any ps text

-- The patterns are texts, but for the escapes of brackets and bars.
abbrev pub injection_patterns : List String
injection_patterns =
    "ignore previous instructions" ∷ "ignore all previous" ∷ "disregard previous"
    ∷ "disregard all previous" ∷ "system override" ∷ "override system prompt" ∷ "new system prompt"
    ∷ "you are now" ∷ "act as if" ∷ "pretend you are" ∷ "forget everything"
    ∷ "forget your instructions" ∷ "ignore your training" ∷ "ignore your programming"
    ∷ "do not follow" ∷ "bypass safety" ∷ "bypass your" ∷ "jailbreak" ∷ "DAN mode"
    ∷ "developer mode enabled" ∷ "[system]" ∷ "[INST]" ∷ "<|im_start|>system" ∷ "### Instruction:"
    ∷ "### System:" ∷ []

-- The first part of what `sanitize_memory_payload` returns.
unfoldable pub is_safe_payload : String → Bool
unfolding matches_any
is_safe_payload text = if str_eq text "" then true else not (matches_any injection_patterns text)

unfoldable pub starts_with : String → String → Bool
starts_with String.[] t = true
starts_with (String.◌∷◌ p ps) String.[] = false
starts_with (String.◌∷◌ p ps) (String.◌∷◌ c s) = code p == code c && starts_with ps s

-- `old in text`
unfoldable pub has_text : String → String → Bool
unfolding starts_with
has_text old String.[] = starts_with old String.[]
has_text old (String.◌∷◌ c s) = starts_with old (String.◌∷◌ c s) || has_text old s

-- The text without as many characters as the other text has.
skip : String → String → String
skip String.[] t = t
skip (String.◌∷◌ p ps) String.[] = String.[]
skip (String.◌∷◌ p ps) (String.◌∷◌ c s) = skip ps s

-- `text.replace(old, new, 1)`
unfoldable pub replace_first : String → String → String → String
unfolding starts_with skip
replace_first old new String.[] = if starts_with old String.[] then new else String.[]
replace_first old new (String.◌∷◌ c s) =
    let rest = replace_first old new s in
    if starts_with old (String.◌∷◌ c s) then new <> skip old (String.◌∷◌ c s) else String.◌∷◌ c rest

-- The characters that `str.isspace` knows.
unfoldable pub is_space : ℕ → Bool
is_space c =
    leb 9 c && leb c 13
    || leb 28 c && leb c 32
    || c == 133
    || c == 160
    || c == 5760
    || leb 8192 c && leb c 8202
    || c == 8232
    || c == 8233
    || c == 8239
    || c == 8287
    || c == 12288

strip_left : String → String
unfolding is_space
strip_left String.[] = String.[]
strip_left (String.◌∷◌ c s) =
    let rest = strip_left s in if is_space (code c) then rest else String.◌∷◌ c s

is_blank : String → Bool
unfolding is_space
is_blank String.[] = true
is_blank (String.◌∷◌ c s) = is_space (code c) && is_blank s

strip_right : String → String
unfolding is_blank
strip_right String.[] = String.[]
strip_right (String.◌∷◌ c s) =
    let rest = strip_right s in if is_blank (String.◌∷◌ c s) then String.[] else String.◌∷◌ c rest

-- `text.strip()`
unfoldable pub strip : String → String
unfolding strip_left strip_right
strip text = strip_right (strip_left text)
