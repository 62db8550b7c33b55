-- ===== src/Hardening/Subjects.antt =====
-- memu/hardening.py: what a sanitized subject can hold.
use Prim.Native.Char.{code}
use fumemory.Base.{
  ℕ, ◌+◌, ◌≤◌, ◌<◌, ◌==◌, String, eq_iff, ◌≡◌, refl, true, false, ◌||◌, ok, arith, ◌⊎◌,
}
use fumemory.Hardening.{
  len, has_wildcard, is_safe_char, matches_rest, matches_safe, sanitize_nats_subject,
}

-- Safe characters, and then at most one line feed.
abbrev pub IsSafeLine : String → Type 0
IsSafeLine String.[] = Unit
IsSafeLine (String.◌∷◌ c s) =
    (String.◌∷◌ c s ≡ "\n") ⊎ ((is_safe_char (code c) ≡ true) × IsSafeLine s)

matches_rest-IsSafeLine : (s : String) → matches_rest s ≡ true → IsSafeLine s
unfolding matches_rest
matches_rest-IsSafeLine String.[] h = tt
matches_rest-IsSafeLine (String.◌∷◌ c s) h =
    ground (arith, eq_iff (String.◌∷◌ c s) "\n", matches_rest-IsSafeLine s)

matches_safe-IsSafeLine : (s : String) → matches_safe s ≡ true → IsSafeLine s
unfolding matches_safe
matches_safe-IsSafeLine String.[] h = tt
matches_safe-IsSafeLine (String.◌∷◌ c s) h = ground (arith, matches_rest-IsSafeLine s)

-- What passes is the text itself, of 1 to 256 characters, each of them safe but perhaps a line feed
-- at the end, and none of them a wildcard.
pub sanitize_sound :
    (subject out : String)
    → sanitize_nats_subject subject ≡ ok out
    → (out ≡ subject)
      × (0 < len subject)
      × (len subject ≤ 256)
      × (has_wildcard subject ≡ false)
      × IsSafeLine subject
sanitize_sound subject out h = (
  unfold sanitize_nats_subject in ground arith,
  unfold sanitize_nats_subject in ground arith,
  unfold sanitize_nats_subject in ground arith,
  unfold sanitize_nats_subject in ground arith,
  matches_safe-IsSafeLine subject (unfold sanitize_nats_subject in ground arith),
)

abbrev pub AllSafe : String → Type 0
AllSafe String.[] = Unit
AllSafe (String.◌∷◌ c s) = (is_safe_char (code c) ≡ true) × AllSafe s

-- The text with a line feed at its end.
abbrev pub with_line_feed : String → String
with_line_feed String.[] = "\n"
with_line_feed (String.◌∷◌ c s) = String.◌∷◌ c (with_line_feed s)

len-with_line_feed : (s : String) → len (with_line_feed s) ≡ len s + 1
unfolding len
len-with_line_feed String.[] = refl
len-with_line_feed (String.◌∷◌ c s) = omega (arith, len-with_line_feed s)

safe_char_no_wildcard : (c : ℕ) → is_safe_char c ≡ true → (c == b'*' || c == b'>') ≡ false
unfolding is_safe_char
safe_char_no_wildcard c h = ground arith

AllSafe-has_wildcard : (s : String) → AllSafe s → has_wildcard s ≡ false
unfolding has_wildcard
AllSafe-has_wildcard String.[] h = refl
AllSafe-has_wildcard (String.◌∷◌ c s) h =
    ground (arith, safe_char_no_wildcard (code c), AllSafe-has_wildcard s h.1)

line_feed-has_wildcard : (s : String) → AllSafe s → has_wildcard (with_line_feed s) ≡ false
unfolding has_wildcard
line_feed-has_wildcard String.[] h = refl
line_feed-has_wildcard (String.◌∷◌ c s) h =
    ground (arith, safe_char_no_wildcard (code c), line_feed-has_wildcard s h.1)

AllSafe-matches_rest : (s : String) → AllSafe s → matches_rest s ≡ true
unfolding matches_rest
AllSafe-matches_rest String.[] h = refl
AllSafe-matches_rest (String.◌∷◌ c s) h = ground (arith, AllSafe-matches_rest s h.1)

line_feed-matches_rest : (s : String) → AllSafe s → matches_rest (with_line_feed s) ≡ true
unfolding matches_rest
line_feed-matches_rest String.[] h = refl
line_feed-matches_rest (String.◌∷◌ c s) h = ground (arith, line_feed-matches_rest s h.1)

AllSafe-matches_safe : (s : String) → AllSafe s → 0 < len s → matches_safe s ≡ true
unfolding matches_safe len
AllSafe-matches_safe String.[] h l = absurd (omega arith)
AllSafe-matches_safe (String.◌∷◌ c s) h l = ground (arith, AllSafe-matches_rest s h.1)

line_feed-matches_safe :
    (s : String) → AllSafe s → 0 < len s → matches_safe (with_line_feed s) ≡ true
unfolding matches_safe len
line_feed-matches_safe String.[] h l = absurd (omega arith)
line_feed-matches_safe (String.◌∷◌ c s) h l = ground (arith, line_feed-matches_rest s h.1)

-- Every text of 1 to 255 safe characters passes, and so does the same text with a line feed at its
-- end.
sanitize_accepts :
    (s : String)
    → AllSafe s
    → 0 < len s
    → len s < 256
    → (sanitize_nats_subject s ≡ ok s)
      × (sanitize_nats_subject (with_line_feed s) ≡ ok (with_line_feed s))
unfolding sanitize_nats_subject
sanitize_accepts s h l m = (
  ground (arith, AllSafe-has_wildcard s h, AllSafe-matches_safe s h l),
  ground (arith, len-with_line_feed s, line_feed-has_wildcard s h, line_feed-matches_safe s h l),
)
