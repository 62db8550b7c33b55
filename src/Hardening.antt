-- ===== src/Hardening.antt =====
-- memu/hardening.py: the pure guards, `sanitize_nats_subject` and `check_fencing_token_health`.
pub mod Subjects
mod Tests
use Prim.Native.Char.{code}
use fumemory.Base.{
  ℕ, zero, suc, ◌+◌, ◌/◌, ◌==◌, leb, ltb, String, str_eq, Bool, true, false, ◌&&◌, ◌||◌, Result, ok,
  err, if◌then◌else◌,
}

pub data SubjectError : Type 0 where
  bad_length wildcard bad_character : SubjectError

abbrev pub max_subject_length : ℕ
max_subject_length = 256

-- `len(subject)`
unfoldable pub len : String → ℕ
len String.[] = 0
len (String.◌∷◌ c s) = suc (len s)

-- `'*' in subject or '>' in subject`
unfoldable pub has_wildcard : String → Bool
has_wildcard String.[] = false
has_wildcard (String.◌∷◌ c s) = code c == b'*' || code c == b'>' || has_wildcard s

-- `[a-zA-Z0-9._-]`
unfoldable pub is_safe_char : ℕ → Bool
is_safe_char c =
    leb b'a' c && leb c b'z'
    || leb b'A' c && leb c b'Z'
    || leb b'0' c && leb c b'9'
    || c == b'.'
    || c == b'_'
    || c == b'-'

-- `$` matches at the end, and before a line feed that ends the text.
unfoldable pub matches_rest : String → Bool
unfolding is_safe_char
matches_rest String.[] = true
matches_rest (String.◌∷◌ c s) =
    str_eq (String.◌∷◌ c s) "\n" || is_safe_char (code c) && matches_rest s

-- `SAFE_SUBJECT_PATTERN.match(subject)`: at least one safe character first
unfoldable pub matches_safe : String → Bool
unfolding matches_rest
matches_safe String.[] = false
matches_safe (String.◌∷◌ c s) = is_safe_char (code c) && matches_rest s

unfoldable pub sanitize_nats_subject : String → Result SubjectError String
unfolding len has_wildcard matches_safe
sanitize_nats_subject subject =
    if len subject == 0 || ltb max_subject_length (len subject)
    then err bad_length
    else if has_wildcard subject
    then err wildcard
    else if matches_safe subject
    then ok subject
    else err bad_character

pub data TokenHealth : Type 0 where
  fine halfway exhausted : TokenHealth

abbrev pub max_fencing_token : ℕ
max_fencing_token = 4611686018427387904

-- `exhausted` is the critical log line and `False`; `halfway` is the warning and `True`.
unfoldable pub check_fencing_token_health : ℕ → TokenHealth
check_fencing_token_health current =
    if ltb max_fencing_token current
    then exhausted
    else if ltb (max_fencing_token / 2) current
    then halfway
    else fine
