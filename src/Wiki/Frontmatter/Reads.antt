-- ===== src/Wiki/Frontmatter/Reads.antt =====
-- memu/wiki/frontmatter.py: a page that was dumped is parsed.
use Prim.Native.Char.{Char, code}
use Prim.Native.String.append.{nil, cons}
use fumemory.Base.{
  ==_iff, String, ◌<>◌, ◌≡◌, refl, sym, ap, ap2, ◌∙◌, Bool, true, false, some, List, [], ◌∷◌, ◌++◌,
  arith, Bool-cases, inl, inr,
}
use fumemory.Base.Lists.{All, List-cases}
use fumemory.Base.Texts.{before, is_newline}
use fumemory.CoreMemory.Texts.{starts_with, strip}
use fumemory.Wiki.Frontmatter.{
  is_break, goes_on, split_lines, join_lines, is_fence, find_end, end_line, drop_newline,
  parse_frontmatter, dump_frontmatter, parsed, after_fence,
}

-- Is the text empty, or does it end with a newline?
unfoldable pub ends_line : String → Bool
ends_line String.[] = true
ends_line (String.◌∷◌ c String.[]) = is_newline (code c)
ends_line (String.◌∷◌ c (String.◌∷◌ d s)) = ends_line (String.◌∷◌ d s)

ends_line-end_line : (s : String) → ends_line (end_line s) ≡ true
unfolding ends_line end_line
ends_line-end_line String.[] = refl
ends_line-end_line (String.◌∷◌ c String.[]) = ground arith
ends_line-end_line (String.◌∷◌ c (String.◌∷◌ d String.[])) = ground arith
ends_line-end_line (String.◌∷◌ c (String.◌∷◌ d (String.◌∷◌ e s))) =
    ends_line-end_line (String.◌∷◌ d (String.◌∷◌ e s))

before-append :
    (c x : String) (xs ys : List String) → before c ((x ∷ xs) ++ ys) ≡ before c (x ∷ xs) ++ ys
unfolding before
before-append c x xs ys = refl

-- A character in front of the lines of the rest, which it goes on with or not.
abbrev line_step : Char → Bool → List String → List String
line_step c true ls = before (String.◌∷◌ c String.[]) ls
line_step c false ls = String.◌∷◌ c String.[] ∷ ls

split_lines-step :
    (c : Char) (s : String)
    → split_lines (String.◌∷◌ c s) ≡ line_step c (goes_on c s) (split_lines s)
unfolding split_lines
split_lines-step c s = elim (Bool-cases (goes_on c s)) [ inl e ↦ rw e refl | inr e ↦ rw e refl ]

split_lines-first :
    (c : Char) (s : String)
    → (x : String) × (xs : List String) × (split_lines (String.◌∷◌ c s) ≡ x ∷ xs)
unfolding split_lines before
split_lines-first c s = elim (Bool-cases (goes_on c s)) [
  | inr g ↦ rw g (String.◌∷◌ c String.[], split_lines s, refl)
  | inl g ↦ elim (List-cases (split_lines s)) [
    | inl e ↦ rw (g, e, before) (String.◌∷◌ c String.[], [], refl)
    | inr (x, xs, e) ↦ rw (g, e, before) (String.◌∷◌ c String.[] <> x, xs, refl)
  ]
]

newline-stops : (c : Char) (s : String) → is_newline (code c) ≡ true → goes_on c s ≡ false
unfolding is_break
newline-stops c s h = let n : code c ≡ 10 = (==_iff (code c) 10).0 h in rw n refl

line_step-append :
    (c : Char) (b : Bool) (d : Char) (s : String) (more : List String)
    → line_step c b (split_lines (String.◌∷◌ d s) ++ more)
      ≡ line_step c b (split_lines (String.◌∷◌ d s)) ++ more
line_step-append c false d s more = refl
line_step-append c true d s more =
    let (x, xs, e) = split_lines-first d s in
    rw e (before-append (String.◌∷◌ c String.[]) x xs more)

-- A character before a text that only grew at its end.
split_lines-longer :
    (c d : Char) (s u : String) (more : List String)
    → goes_on c (String.◌∷◌ d u) ≡ goes_on c (String.◌∷◌ d s)
    → split_lines (String.◌∷◌ d u) ≡ split_lines (String.◌∷◌ d s) ++ more
    → split_lines (String.◌∷◌ c (String.◌∷◌ d u))
      ≡ split_lines (String.◌∷◌ c (String.◌∷◌ d s)) ++ more
split_lines-longer c d s u more same tail =
    split_lines-step c (String.◌∷◌ d u)
    ∙ ap2 (line_step c) same tail
    ∙ line_step-append c (goes_on c (String.◌∷◌ d s)) d s more
    ∙ ap (λ l. l ++ more) (sym (split_lines-step c (String.◌∷◌ d s)))

split_lines-append :
    (s t : String) → ends_line s ≡ true → split_lines (s <> t) ≡ split_lines s ++ split_lines t
unfolding split_lines ends_line
split_lines-append String.[] t h = rw nil refl
split_lines-append (String.◌∷◌ c String.[]) t h =
    rw (cons c "" t, nil t, newline-stops c t h, newline-stops c "" h) refl
split_lines-append (String.◌∷◌ c (String.◌∷◌ d s)) t h =
    let tail : split_lines (String.◌∷◌ d (s <> t)) ≡ split_lines (String.◌∷◌ d s) ++ split_lines t =
      ap split_lines (sym (cons d s t)) ∙ split_lines-append (String.◌∷◌ d s) t h in
    ap split_lines (cons c (String.◌∷◌ d s) t ∙ ap (String.◌∷◌ c) (cons d s t))
    ∙ split_lines-longer c d s (s <> t) (split_lines t) refl tail

join_lines-before :
    (c : Char) (xs : List String)
    → join_lines (before (String.◌∷◌ c String.[]) xs) ≡ String.◌∷◌ c (join_lines xs)
unfolding join_lines before
join_lines-before c [] = cons c "" "" ∙ ap (String.◌∷◌ c) (nil "")
join_lines-before c (x ∷ xs) =
    ap (λ y. y <> join_lines xs) (cons c "" x ∙ ap (String.◌∷◌ c) (nil x))
    ∙ cons c x (join_lines xs)

join_lines-split_lines : (s : String) → join_lines (split_lines s) ≡ s
unfolding split_lines join_lines
join_lines-split_lines String.[] = refl
join_lines-split_lines (String.◌∷◌ c s) = elim (Bool-cases (goes_on c s)) [
  | inl e ↦
      rw (e, split_lines)
        (join_lines-before c (split_lines s) ∙ ap (String.◌∷◌ c) (join_lines-split_lines s))
  | inr e ↦
      rw (e, split_lines)
        (cons c "" (join_lines (split_lines s))
          ∙ ap (String.◌∷◌ c) (nil (join_lines (split_lines s)) ∙ join_lines-split_lines s))
]

-- The text after the line of dashes.
split_lines-fence : (t : String) → split_lines ("---\n" <> t) ≡ "---\n" ∷ split_lines t
unfolding split_lines ends_line is_break before
split_lines-fence t = split_lines-append "---\n" t refl

starts_with-fence : (t : String) → starts_with "---" ("---\n" <> t) ≡ true
unfolding starts_with
starts_with-fence t =
    let fence : "---\n" <> t ≡ String.◌∷◌ "-" (String.◌∷◌ "-" (String.◌∷◌ "-" ("\n" <> t))) =
      cons "-" "--\n" t
      ∙ ap (String.◌∷◌ "-") (cons "-" "-\n" t ∙ ap (String.◌∷◌ "-") (cons "-" "\n" t)) in
    ap (starts_with "---") fence

find_end-fence :
    (raw body : List String)
    → All (λ l. is_fence l ≡ false) raw
    → find_end (raw ++ "---\n" ∷ body) ≡ some (raw, body)
unfolding find_end strip
find_end-fence [] body h = refl
find_end-fence (l ∷ raw) body h = rw (h.0, find_end, find_end-fence raw body h.1) refl

module _ {A : Type 0} (empty : A) (load : String → A) (dump : A → String) where
  -- A page that was dumped is parsed to its frontmatter and its body, ended by a newline and without
  -- one at its start, where the library reads the frontmatter that it wrote and no line of that is a
  -- line of three dashes with space around it.
  pub parse-dump :
      (fm : A) (body : String)
      → load (end_line (dump fm)) ≡ fm
      → All (λ l. is_fence l ≡ false) (split_lines (end_line (dump fm)))
      → parse_frontmatter empty load dump (dump_frontmatter empty load dump fm body)
        ≡ (fm, drop_newline (end_line body))
  unfolding parse_frontmatter dump_frontmatter after_fence parsed strip
  parse-dump fm body reads plain =
      let rest = end_line (dump fm) <> ("---\n" <> end_line body) in
      let lines : split_lines rest
          ≡ split_lines (end_line (dump fm)) ++ "---\n" ∷ split_lines (end_line body) =
        split_lines-append (end_line (dump fm)) ("---\n" <> end_line body)
          (ends_line-end_line (dump fm))
        ∙ ap (λ ls. split_lines (end_line (dump fm)) ++ ls) (split_lines-fence (end_line body)) in
      rw
        (
          starts_with-fence rest,
          split_lines-fence rest,
          lines,
          find_end-fence (split_lines (end_line (dump fm))) (split_lines (end_line body)) plain,
          join_lines-split_lines (end_line (dump fm)),
          join_lines-split_lines (end_line body),
          reads,
        )
        refl
