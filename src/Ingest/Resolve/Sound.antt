-- ===== src/Ingest/Resolve/Sound.antt =====
-- memu/ingest/resolve.py: where the links go.
use fumemory.Base.{
  ℕ, ◌==◌, String, ◌<>◌, str_eq, eq_iff, eq_refl, ◌≡◌, refl, true, false, ◌&&◌, ◌||◌, not, Option,
  none, some, Option-cases, Bool-cases, List, [], ◌∷◌, map, arith, ◌⊎◌, inl, inr,
}
use fumemory.Base.Lists.{IfSome, first_some-IfSome, length, contains, first_some, splits}
use fumemory.Ingest.Names.{
  split_dots, join_dots, first_part, has_dot, module_to_slug, known_prefix, longest_symbol_prefix,
}
use fumemory.Ingest.Imports.{AliasTable, best_match}
use fumemory.Ingest.Resolve.{
  Reference, ParsedSymbol, ParsedFile, ResolvedLink, Resolver, symbols_of, is_module, is_method,
  make_link, fallback, maybe_link, Stage, go_on, return, after, last, as_sibling, as_import,
  as_local, as_path_at, as_path, resolve_one,
}

-- The text is empty, or one of the names.
abbrev pub IsKnown : String → List String → Type 0
IsKnown name known = (name ≡ "") ⊎ (contains name known ≡ true)

named-IsKnown :
    (known : List String) (o : Option String)
    → IfSome (λ name. contains name known ≡ true) o
    → IsKnown (elim o [ none ↦ "" | some name ↦ name ]) known
named-IsKnown known none h = inl refl
named-IsKnown known (some name) h = inr h

known_prefix-holds :
    (known : List String) (x : List String × List String)
    → IfSome (λ name. contains name known ≡ true) (known_prefix known x)
unfolding known_prefix
known_prefix-holds known (front, back) = elim (Bool-cases (contains (join_dots front) known)) [
  | inl e ↦ rw (e, known_prefix) e
  | inr e ↦ rw (e, known_prefix) tt
]

longest_symbol_prefix-IsKnown :
    (parts known : List String) → IsKnown (longest_symbol_prefix parts known) known
unfolding longest_symbol_prefix
longest_symbol_prefix-IsKnown parts known =
    named-IsKnown known (first_some (known_prefix known) (splits parts)) (
      first_some-IfSome (known_prefix known) (λ name. contains name known ≡ true)
        (known_prefix-holds known) (splits parts))

fallback-IsKnown : (known : List String) (name : String) → IsKnown (fallback known name) known
unfolding fallback
fallback-IsKnown known name = ground (arith, eq_iff name "", eq_refl "")

known-ingested :
    (r : Resolver) (module_name name : String)
    → contains name (symbols_of r module_name) ≡ true
    → is_module r module_name ≡ true
unfolding symbols_of contains
known-ingested r module_name name h = ground (arith, h)

-- The link goes from the symbol to a module that was ingested, and to the module itself or to a
-- symbol of it; its slug is the target's, and not the symbol's own.
pub record IsLink (r : Resolver) (file : ParsedFile) (qualname : String) (link : ResolvedLink)
    : Type 0 where
  pub from : (link.src_module_fqn ≡ file.module_fqn) × (link.src_qualname ≡ qualname)
  pub ingested : is_module r link.dst_module_fqn ≡ true
  pub known : IsKnown link.dst_name (symbols_of r link.dst_module_fqn)
  pub slug : link.dst_slug ≡ module_to_slug link.dst_module_fqn link.dst_name
  pub other : str_eq link.dst_slug (module_to_slug file.module_fqn qualname) ≡ false

nonempty-ingested :
    (r : Resolver) (module_name head : String)
    → contains head (map first_part (symbols_of r module_name)) ≡ true
    → is_module r module_name ≡ true
unfolding symbols_of contains
nonempty-ingested r module_name head h = ground (arith, h)

module _ (r : Resolver) (symbol : ParsedSymbol) (file : ParsedFile) where
  abbrev pub Sound : Option ResolvedLink → Type 0
  Sound = IfSome (IsLink r file symbol.qualname)

  make_link-Sound :
      (dst_module dst_name : String) (line : ℕ)
      → is_module r dst_module ≡ true
      → IsKnown dst_name (symbols_of r dst_module)
      → Sound (make_link symbol file dst_module dst_name line)
  unfolding make_link
  make_link-Sound dst_module dst_name line there known =
      elim (Bool-cases (
        str_eq (module_to_slug dst_module dst_name)
          (module_to_slug file.module_fqn symbol.qualname))) [
            | inl e ↦ rw (e, make_link) tt
            | inr e ↦
                rw (e, make_link)
                  (record {
                    from = (refl, refl);
                    ingested = there;
                    known = known;
                    slug = refl;
                    other = e;
                  })
          ]

  maybe_link-Sound :
      (dst_module dst_name : String) (line : ℕ)
      → Sound (maybe_link r symbol file dst_module dst_name line)
  unfolding maybe_link
  maybe_link-Sound dst_module dst_name line = elim (Bool-cases (is_module r dst_module)) [
    | inl e ↦
        rw (e, maybe_link)
          (make_link-Sound dst_module (fallback (symbols_of r dst_module) dst_name) line e
            (fallback-IsKnown (symbols_of r dst_module) dst_name))
    | inr e ↦ rw (e, maybe_link) tt
  ]

  abbrev StageSound : Stage → Type 0
  StageSound go_on = Unit
  StageSound (return link) = Sound link

  as_sibling-Sound :
      (line : ℕ) (parts : List String) → StageSound (as_sibling r line parts symbol file)
  unfolding as_sibling
  as_sibling-Sound line [] = tt
  as_sibling-Sound line (head ∷ more) =
      let sibling = first_part symbol.qualname <> ("." <> head) in
      elim (Bool-cases (
        is_method symbol.kind
        && (length more == 0
            && (has_dot symbol.qualname && contains sibling (symbols_of r file.module_fqn))))) [
              | inl e ↦
                  let k : contains sibling (symbols_of r file.module_fqn) ≡ true =
                    ground (arith, e) in
                  rw (e, as_sibling)
                    (make_link-Sound file.module_fqn sibling line
                      (known-ingested r file.module_fqn sibling k) (inr k))
              | inr e ↦ rw (e, as_sibling) tt
            ]

  as_import-Sound :
      (table : AliasTable) (line : ℕ) (parts : List String)
      → StageSound (as_import r table line parts symbol file)
  unfolding as_import
  as_import-Sound table line parts = elim (Option-cases (best_match table parts)) [
    | inl e ↦ rw (e, as_import) tt
    | inr (found, e) ↦ rw (e, as_import) (maybe_link-Sound found.0 (join_dots found.1) line)
  ]

  as_local-Sound : (line : ℕ) (parts : List String) → StageSound (as_local r line parts symbol file)
  unfolding as_local
  as_local-Sound line [] = tt
  as_local-Sound line (head ∷ more) =
      let known = symbols_of r file.module_fqn in
      let dst_name = longest_symbol_prefix (head ∷ more) known in
      elim (Bool-cases (contains head (map first_part known) && not (str_eq dst_name ""))) [
        | inl e ↦
            rw (e, as_local)
              (make_link-Sound file.module_fqn dst_name line
                (nonempty-ingested r file.module_fqn head (ground (arith, e)))
                (longest_symbol_prefix-IsKnown (head ∷ more) known))
        | inr e ↦ rw (e, as_local) tt
      ]

  as_path_at-Sound :
      (line : ℕ) (x : List String × List String) → IfSome Sound (as_path_at r line symbol file x)
  unfolding as_path_at
  as_path_at-Sound line (front, back) =
      let dst_name = longest_symbol_prefix back (symbols_of r (join_dots front)) in
      elim (Bool-cases
        (is_module r (join_dots front) && (not (str_eq dst_name "") || length back == 0))) [
          | inl e ↦
              rw (e, as_path_at)
                (make_link-Sound (join_dots front) dst_name line (ground (arith, e))
                  (longest_symbol_prefix-IsKnown back (symbols_of r (join_dots front))))
          | inr e ↦ rw (e, as_path_at) tt
        ]

  flat-Sound :
      (o : Option (Option ResolvedLink))
      → IfSome Sound o
      → Sound (elim o [ none ↦ none | some link ↦ link ])
  flat-Sound none h = tt
  flat-Sound (some link) h = h

  after-Sound : (s t : Stage) → StageSound s → StageSound t → StageSound (after s t)
  after-Sound go_on t h k = k
  after-Sound (return link) t h k = h

  last-Sound : (s : Stage) (o : Option ResolvedLink) → StageSound s → Sound o → Sound (last s o)
  last-Sound go_on o h k = k
  last-Sound (return link) o h k = h

  pub resolve_one-Sound :
      (table : AliasTable) (ref : Reference) → Sound (resolve_one r table ref symbol file)
  unfolding resolve_one as_path
  resolve_one-Sound table ref =
      let parts = split_dots ref.name in
      let found = first_some (as_path_at r ref.line symbol file) (splits parts) in
      last-Sound
        (after (as_sibling r ref.line parts symbol file) (
          after (as_import r table ref.line parts symbol file)
            (as_local r ref.line parts symbol file)))
        (as_path r ref.line parts symbol file)
        (after-Sound (as_sibling r ref.line parts symbol file)
          (after (as_import r table ref.line parts symbol file)
            (as_local r ref.line parts symbol file))
          (as_sibling-Sound ref.line parts)
          (after-Sound (as_import r table ref.line parts symbol file)
            (as_local r ref.line parts symbol file) (as_import-Sound table ref.line parts)
            (as_local-Sound ref.line parts)))
        (flat-Sound found (
          first_some-IfSome (as_path_at r ref.line symbol file) Sound (as_path_at-Sound ref.line)
            (splits parts)))
