-- ===== src/Base/Texts.antt =====
-- Joined and split texts.
use Prim.Native.Nat.{ℕ, zero, suc, ◌+◌, ◌-◌, ◌≤◌}
use Prim.Native.Char.{Char, code}
use Prim.Native.String.{String, ◌++◌ as ◌<>◌, char_at}
use Prim.Native.String.append.{nil, cons}
use mathlib.Core.Path.{◌≡◌, refl, ap, ◌∙◌}
use mathlib.Core.Bool.{Bool, true, false, ◌&&◌, not}
use mathlib.Core.Logic.{inl, inr}
use mathlib.Core.Option.{Option, none, some}
use mathlib.Core.List.{List, [], ◌∷◌}
use native.Mathlib.Omega.{arith}
use fumemory.Base.Tests.{leb, ◌==◌, if◌then◌else◌, Bool-cases}
use fumemory.Base.Lists.{All}

-- `separator.join(pieces)`
unfoldable pub join : String → List String → String
join separator [] = ""
join separator (s ∷ []) = s
join separator (s ∷ t ∷ ss) = s <> (separator <> join separator (t ∷ ss))

-- A text before the first of some parts.
unfoldable pub before : String → List String → List String
before c [] = c ∷ []
before c (p ∷ ps) = (c <> p) ∷ ps

abbrev pub is_newline : ℕ → Bool
is_newline c = c == b'\n'

-- The rest of `text.split("\n\n")`, after a newline that has not been used yet.
unfoldable pub split_from : Option Char → String → List String
unfolding before
split_from none String.[] = "" ∷ []
split_from (some d) String.[] = String.◌∷◌ d String.[] ∷ []
split_from none (String.◌∷◌ c s) =
    let again = split_from (some c) s in
    let rest = split_from none s in
    if is_newline (code c) then again else before (String.◌∷◌ c String.[]) rest
split_from (some d) (String.◌∷◌ c s) =
    let rest = split_from none s in
    if is_newline (code c)
    then "" ∷ rest
    else before (String.◌∷◌ d String.[]) (before (String.◌∷◌ c String.[]) rest)

-- `text.split("\n\n")`
abbrev pub split_paragraphs : String → List String
split_paragraphs = split_from none

-- No two newlines beside each other, none at the end, and none at the start after another.
unfoldable pub one_line_breaks : Bool → String → Bool
one_line_breaks pending String.[] = not pending
one_line_breaks pending (String.◌∷◌ c s) =
    if is_newline (code c) then not pending && one_line_breaks true s else one_line_breaks false s

blank_line : (rest : String) → "\n\n" <> rest ≡ String.◌∷◌ "\n" (String.◌∷◌ "\n" rest)
blank_line rest =
    cons "\n" "\n" rest ∙ ap (String.◌∷◌ "\n") (cons "\n" "" rest ∙ ap (String.◌∷◌ "\n") (nil rest))

before_char :
    (c : Char) (p : String) (ps : List String)
    → before (String.◌∷◌ c String.[]) (p ∷ ps) ≡ String.◌∷◌ c p ∷ ps
unfolding before
before_char c p ps = ap (λ s. s ∷ ps) (cons c "" p ∙ ap (String.◌∷◌ c) (nil p))

-- A text that ends before the separator is the first part.
split_from-append :
    (p rest : String)
    → (one_line_breaks false p ≡ true
        → split_from none (p <> ("\n\n" <> rest)) ≡ p ∷ split_from none rest)
      × ((d : Char)
          → one_line_breaks true p ≡ true
          → split_from (some d) (p <> ("\n\n" <> rest)) ≡ String.◌∷◌ d p ∷ split_from none rest)
unfolding split_from one_line_breaks
split_from-append String.[] rest = (λ h. rw (nil, blank_line) refl, λ d h. ground (arith, h))
split_from-append (String.◌∷◌ c s) rest =
    let (plain, pending) = split_from-append s rest in
    elim (Bool-cases (is_newline (code c))) [
      | inl e ↦ (
        λ h. rw (cons c s ("\n\n" <> rest), e) (pending c (rw e at h)),
        λ d h. ground (arith, e, h),
      )
      | inr e ↦ (
        λ h.
            rw (cons c s ("\n\n" <> rest), e, plain (rw e at h))
              (before_char c s (split_from none rest)),
        λ d h.
            rw (cons c s ("\n\n" <> rest), e, plain (rw e at h))
              (ap (before (String.◌∷◌ d String.[])) (before_char c s (split_from none rest))
                ∙ before_char d (String.◌∷◌ c s) (split_from none rest)),
      )
    ]

split_from-last :
    (p : String)
    → (one_line_breaks false p ≡ true → split_from none p ≡ p ∷ [])
      × ((d : Char) → one_line_breaks true p ≡ true → split_from (some d) p ≡ String.◌∷◌ d p ∷ [])
unfolding split_from one_line_breaks
split_from-last String.[] = (λ h. refl, λ d h. refl)
split_from-last (String.◌∷◌ c s) =
    let (plain, pending) = split_from-last s in
    elim (Bool-cases (is_newline (code c))) [
      | inl e ↦ (λ h. rw e (pending c (rw e at h)), λ d h. ground (arith, e, h))
      | inr e ↦ (
        λ h. rw (e, plain (rw e at h)) (before_char c s []),
        λ d h.
            rw (e, plain (rw e at h))
              (ap (before (String.◌∷◌ d String.[])) (before_char c s [])
                ∙ before_char d (String.◌∷◌ c s) []),
      )
    ]

-- Splitting what was joined by blank lines gives the paragraphs, when there is one at least, and no
-- paragraph has a blank line or ends in a newline.
pub split_paragraphs-join :
    (p : String) (ps : List String)
    → All (λ q. one_line_breaks false q ≡ true) (p ∷ ps)
    → split_paragraphs (join "\n\n" (p ∷ ps)) ≡ p ∷ ps
unfolding join
split_paragraphs-join p [] (h, _) = (split_from-last p).0 h
split_paragraphs-join p (q ∷ qs) (h, hs) =
    (split_from-append p (join "\n\n" (q ∷ qs))).0 h
    ∙ ap (λ rest. p ∷ rest) (split_paragraphs-join q qs hs)

-- `len(s)`, and `s[:n]`
unfoldable pub size : String → ℕ
size String.[] = 0
size (String.◌∷◌ c s) = suc (size s)

unfoldable pub start : ℕ → String → String
start zero s = ""
start (suc n) String.[] = ""
start (suc n) (String.◌∷◌ c s) = String.◌∷◌ c (start n s)

pub size-start : (n : ℕ) (s : String) → size (start n s) ≤ n
unfolding size start
size-start zero s = omega arith
size-start (suc n) String.[] = omega arith
size-start (suc n) (String.◌∷◌ c s) = ground (arith, size-start n s)

pub size-append : (s t : String) → size (s <> t) ≡ size s + size t
unfolding size
size-append String.[] t = rw nil (omega arith)
size-append (String.◌∷◌ c s) t = rw cons (ground (arith, size-append s t))

-- `s.lower()` on the capitals of ASCII.
abbrev lower_char : Char → Char
lower_char c =
    if leb b'A' (code c) && leb (code c) b'Z'
    then char_at "abcdefghijklmnopqrstuvwxyz" (code c - b'A')
    else c

unfoldable pub lower : String → String
lower String.[] = String.[]
lower (String.◌∷◌ c s) = String.◌∷◌ (lower_char c) (lower s)
