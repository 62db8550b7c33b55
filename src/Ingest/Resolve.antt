-- ===== src/Ingest/Resolve.antt =====
-- memu/ingest/resolve.py: `LinkResolver` over the parsed files of memu/ingest/parsers/base.py, of
-- which it reads the fields that stand here.
pub mod Sound
pub mod Files
use fumemory.Base.{
  ℕ, ◌==◌, String, ◌<>◌, str_eq, Bool, true, false, ◌&&◌, ◌||◌, not, Option, none, some, is_some,
  List, [], ◌∷◌, ◌++◌, map, if◌then◌else◌,
}
use fumemory.Base.Dict
use fumemory.Base.Dict.{Dict}
use fumemory.Base.Lists.{length, contains, first_some, splits}
use fumemory.Ingest.Names.{
  split_dots, join_dots, first_part, has_dot, module_to_slug, longest_symbol_prefix,
}
use fumemory.Ingest.Imports.{Import, AliasTable, best_match, build_alias_table}

pub record Reference : Type 0 where
  pub name : String
  pub line : ℕ

pub data SymbolKind : Type 0 where
  module_kind class_kind function_kind method_kind : SymbolKind

pub record ParsedSymbol : Type 0 where
  pub qualname : String
  pub kind : SymbolKind
  pub references : List Reference

pub record ParsedFile : Type 0 where
  pub module_fqn : String
  pub imports : List Import
  pub symbols : List ParsedSymbol

pub record ResolvedLink : Type 0 where
  pub src_module_fqn : String
  pub src_qualname : String
  pub dst_slug : String
  pub dst_module_fqn : String
  pub dst_name : String
  pub line : ℕ

-- `_files_by_module`, which the other two tables of a resolver are made of.
abbrev pub Resolver : Type 0
Resolver = Dict ParsedFile

-- `__init__`: of two files of one module the last stays.
unfoldable pub make_resolver : List ParsedFile → Resolver → Resolver
make_resolver [] r = r
make_resolver (f ∷ fs) r = make_resolver fs (Dict.put r f.module_fqn f)

abbrev qualnames : ParsedFile → List String
qualnames f = map (λ (s : ParsedSymbol). s.qualname) f.symbols

-- `self._symbols_by_module.get(module, frozenset())`
unfoldable pub symbols_of : Resolver → String → List String
symbols_of r module_name = elim (Dict.get r module_name) [ none ↦ [] | some f ↦ qualnames f ]

abbrev pub is_module : Resolver → String → Bool
is_module r module_name = is_some (Dict.get r module_name)

abbrev pub is_method : SymbolKind → Bool
is_method method_kind = true
is_method _ = false

-- `_make_link`: no link from a symbol to itself.
unfoldable pub make_link : ParsedSymbol → ParsedFile → String → String → ℕ → Option ResolvedLink
make_link symbol file dst_module dst_name line =
    let dst_slug = module_to_slug dst_module dst_name in
    if str_eq dst_slug (module_to_slug file.module_fqn symbol.qualname)
    then none
    else some (record {
      src_module_fqn = file.module_fqn;
      src_qualname = symbol.qualname;
      dst_slug = dst_slug;
      dst_module_fqn = dst_module;
      dst_name = dst_name;
      line = line;
    })

-- The name that `_maybe_link` falls back to.
unfoldable pub fallback : List String → String → String
fallback known dst_name =
    if not (str_eq dst_name "") && not (contains dst_name known)
    then (if contains (first_part dst_name) known then first_part dst_name else "")
    else dst_name

-- `_maybe_link`
unfoldable pub maybe_link :
    Resolver → ParsedSymbol → ParsedFile → String → String → ℕ → Option ResolvedLink
maybe_link r symbol file dst_module dst_name line =
    if is_module r dst_module
    then make_link symbol file dst_module (fallback (symbols_of r dst_module) dst_name) line
    else none

-- What a stage of `_resolve_one` says: go on, or return.
pub data Stage : Type 0 where
  go_on : Stage
  return : Option ResolvedLink → Stage

-- 1) A sibling method.
unfoldable pub as_sibling : Resolver → ℕ → List String → ParsedSymbol → ParsedFile → Stage
as_sibling r line [] symbol file = go_on
as_sibling r line (head ∷ more) symbol file =
    let sibling = first_part symbol.qualname <> ("." <> head) in
    if is_method symbol.kind
      && (length more == 0
          && (has_dot symbol.qualname && contains sibling (symbols_of r file.module_fqn)))
    then return (make_link symbol file file.module_fqn sibling line)
    else go_on

-- 2) An imported name.
unfoldable pub as_import :
    Resolver → AliasTable → ℕ → List String → ParsedSymbol → ParsedFile → Stage
as_import r table line parts symbol file = elim (best_match table parts) [
  | none ↦ go_on
  | some found ↦ return (maybe_link r symbol file found.0 (join_dots found.1) line)
]

-- 3) A name of the same module.
unfoldable pub as_local : Resolver → ℕ → List String → ParsedSymbol → ParsedFile → Stage
as_local r line [] symbol file = go_on
as_local r line (head ∷ more) symbol file =
    let known = symbols_of r file.module_fqn in
    let dst_name = longest_symbol_prefix (head ∷ more) known in
    if contains head (map first_part known) && not (str_eq dst_name "")
    then return (make_link symbol file file.module_fqn dst_name line)
    else go_on

unfoldable pub as_path_at :
    Resolver
    → ℕ
    → ParsedSymbol
    → ParsedFile
    → List String × List String
    → Option (Option ResolvedLink)
as_path_at r line symbol file (front, back) =
    let dst_name = longest_symbol_prefix back (symbols_of r (join_dots front)) in
    if is_module r (join_dots front) && (not (str_eq dst_name "") || length back == 0)
    then some (make_link symbol file (join_dots front) dst_name line)
    else none

-- 4) A full path to a module.
unfoldable pub as_path :
    Resolver → ℕ → List String → ParsedSymbol → ParsedFile → Option ResolvedLink
as_path r line parts symbol file =
    elim (first_some (as_path_at r line symbol file) (splits parts)) [
      | none ↦ none
      | some link ↦ link
    ]

abbrev pub after : Stage → Stage → Stage
after go_on next = next
after (return link) next = return link

abbrev pub last : Stage → Option ResolvedLink → Option ResolvedLink
last go_on next = next
last (return link) next = link

-- `_resolve_one`
unfoldable pub resolve_one :
    Resolver → AliasTable → Reference → ParsedSymbol → ParsedFile → Option ResolvedLink
resolve_one r table ref symbol file =
    let parts = split_dots ref.name in
    last
      (after (as_sibling r ref.line parts symbol file) (
        after (as_import r table ref.line parts symbol file)
          (as_local r ref.line parts symbol file)))
      (as_path r ref.line parts symbol file)

abbrev pub slugs : List ResolvedLink → List String
slugs = map (λ (l : ResolvedLink). l.dst_slug)

unfoldable pub keep_link : Option ResolvedLink → List ResolvedLink → List ResolvedLink
keep_link none resolved = resolved
keep_link (some link) resolved =
    if contains link.dst_slug (slugs resolved) then resolved else resolved ++ link ∷ []

-- The inner loop of `resolve_file`
unfoldable pub resolve_references :
    Resolver
    → AliasTable
    → ParsedSymbol
    → ParsedFile
    → List Reference
    → List ResolvedLink
    → List ResolvedLink
unfolding keep_link
resolve_references r table symbol file [] resolved = resolved
resolve_references r table symbol file (ref ∷ refs) resolved =
    resolve_references r table symbol file refs
      (keep_link (resolve_one r table ref symbol file) resolved)

unfoldable pub add_entry :
    String → List ResolvedLink → Dict (List ResolvedLink) → Dict (List ResolvedLink)
add_entry qualname [] out = out
add_entry qualname (l ∷ ls) out = Dict.put out qualname (l ∷ ls)

unfoldable pub resolve_symbols :
    Resolver
    → AliasTable
    → ParsedFile
    → List ParsedSymbol
    → Dict (List ResolvedLink)
    → Dict (List ResolvedLink)
unfolding add_entry
resolve_symbols r table file [] out = out
resolve_symbols r table file (s ∷ ss) out =
    resolve_symbols r table file ss
      (add_entry s.qualname (resolve_references r table s file s.references []) out)

-- `resolve_file`
unfoldable pub resolve_file : Resolver → ParsedFile → Dict (List ResolvedLink)
unfolding resolve_symbols
resolve_file r file =
    resolve_symbols r (build_alias_table file.imports (map (λ e. e.0) r) []) file file.symbols []

-- `resolve_symbol`
unfoldable pub resolve_symbol : Resolver → ParsedFile → ParsedSymbol → List ResolvedLink
resolve_symbol r file symbol = elim (Dict.get (resolve_file r file) symbol.qualname) [
  | none ↦ []
  | some links ↦ links
]
