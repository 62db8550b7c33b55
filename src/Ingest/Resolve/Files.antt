-- ===== src/Ingest/Resolve/Files.antt =====
-- memu/ingest/resolve.py: what `resolve_file` answers for a file.
use fumemory.Base.{
  String, str_eq, eq_iff, ◌≡◌, ◌≢◌, refl, true, Option, none, some, Bool-cases, List, [], ◌∷◌, map,
  arith, subst, inl, inr, sym, ◌∙◌, ap,
}
use mathlib.Core.List.{map-append}
use fumemory.Base.Dict
use fumemory.Base.Dict.{Dict, get-put}
use fumemory.Base.Lists.{All, All-append, IfSome, contains, is_unique, is_unique-append}
use fumemory.Ingest.Imports.{AliasTable, build_alias_table}
use fumemory.Ingest.Resolve.{
  Reference, ParsedSymbol, ParsedFile, ResolvedLink, Resolver, resolve_one, slugs, keep_link,
  resolve_references, add_entry, resolve_symbols, resolve_file,
}
use fumemory.Ingest.Resolve.Sound.{IsLink, resolve_one-Sound}

-- Links of the symbol, no two of them to one page.
pub record Links (r : Resolver) (file : ParsedFile) (qualname : String) (links : List ResolvedLink)
    : Type 0 where
  pub sound : All (IsLink r file qualname) links
  pub once : is_unique (slugs links) ≡ true

module _ (r : Resolver) (file : ParsedFile) where
  keep_link-Links :
      (qualname : String) (link : Option ResolvedLink) (links : List ResolvedLink)
      → IfSome (IsLink r file qualname) link
      → Links r file qualname links
      → Links r file qualname (keep_link link links)
  unfolding keep_link
  keep_link-Links qualname none links h v = v
  keep_link-Links qualname (some link) links h v =
      elim (Bool-cases (contains link.dst_slug (slugs links))) [
        | inl e ↦ rw (e, keep_link) v
        | inr e ↦
            rw (e, keep_link)
              (record {
                sound = All-append (IsLink r file qualname) link links v.sound h;
                once =
                    ap is_unique (map-append (λ (l : ResolvedLink). l.dst_slug) links (link ∷ []))
                    ∙ is_unique-append (slugs links) link.dst_slug e
                    ∙ v.once;
              })
      ]

  resolve_references-Links :
      (table : AliasTable) (symbol : ParsedSymbol) (refs : List Reference)
      (links : List ResolvedLink)
      → Links r file symbol.qualname links
      → Links r file symbol.qualname (resolve_references r table symbol file refs links)
  unfolding resolve_references
  resolve_references-Links table symbol [] links v = v
  resolve_references-Links table symbol (ref ∷ refs) links v =
      let link = resolve_one r table ref symbol file in
      resolve_references-Links table symbol refs (keep_link link links)
        (keep_link-Links symbol.qualname link links (resolve_one-Sound r symbol file table ref) v)

  abbrev Answered : Dict (List ResolvedLink) → Type 0
  Answered out =
      (q : String) → IfSome (λ links. Links r file q links × (links ≢ [])) (Dict.get out q)

  add_entry-Answered :
      (q : String) (links : List ResolvedLink) (out : Dict (List ResolvedLink))
      → Links r file q links
      → Answered out
      → Answered (add_entry q links out)
  unfolding add_entry
  add_entry-Answered q [] out v h j = h j
  add_entry-Answered q (l ∷ ls) out v h j =
      subst (IfSome (λ links. Links r file j links × (links ≢ []))) (sym (get-put out q (l ∷ ls) j))
        (elim (Bool-cases (str_eq q j)) [
          | inl e ↦
              rw e
                (subst (λ k. Links r file k (l ∷ ls)) ((eq_iff q j).0 e) v, λ k. ground (arith, k))
          | inr e ↦ rw e (h j)
        ])

  resolve_symbols-Answered :
      (table : AliasTable) (symbols : List ParsedSymbol) (out : Dict (List ResolvedLink))
      → Answered out
      → Answered (resolve_symbols r table file symbols out)
  unfolding resolve_symbols
  resolve_symbols-Answered table [] out h = h
  resolve_symbols-Answered table (s ∷ ss) out h =
      let links = resolve_references r table s file s.references [] in
      resolve_symbols-Answered table ss (add_entry s.qualname links out) (
        add_entry-Answered s.qualname links out
          (resolve_references-Links table s s.references []
            (record { sound = tt; once = unfold is_unique in refl }))
          h)

-- At every name, the answer of `resolve_file` is not empty; its links go from the symbol of that name
-- to modules that were ingested, or to symbols that those modules have, each by the slug of its
-- target and none to the symbol itself; and no two of them go to one page.
pub resolve_file-Links :
    (r : Resolver) (file : ParsedFile) (q : String) (links : List ResolvedLink)
    → Dict.get (resolve_file r file) q ≡ some links
    → Links r file q links × (links ≢ [])
unfolding resolve_file Dict.get
resolve_file-Links r file q links h =
    subst (IfSome (λ links. Links r file q links × (links ≢ []))) h (
      resolve_symbols-Answered r file (build_alias_table file.imports (map (λ e. e.0) r) [])
        file.symbols [] (λ j. tt) q)
