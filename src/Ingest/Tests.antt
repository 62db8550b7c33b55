-- ===== src/Ingest/Tests.antt =====
-- memu/ingest on small inputs.
use fumemory.Base.{◌≡◌, ◌≢◌, refl, some, List, [], ◌∷◌}
use fumemory.Base.Dict
use fumemory.Base.Lists.{contains, first_some, splits, splits_from, length, take, drop}
use fumemory.Ingest.Names.{
  split_dots, module_to_slug, first_part, has_dot, join_dots, known_prefix, longest_symbol_prefix,
}
use fumemory.Ingest.Imports.{best_match, match_at, build_alias_table, add_alias}
use fumemory.Ingest.Resolve.{
  ParsedSymbol, ParsedFile, ResolvedLink, Resolver, SymbolKind, make_resolver, resolve_file,
  resolve_references, resolve_one, as_sibling, as_import, add_entry, as_local, as_path, as_path_at,
  fallback, keep_link, make_link, maybe_link, resolve_symbols, symbols_of,
}
use fumemory.Ingest.Resolve.Files.{Links, resolve_file-Links}

abbrev util : ParsedFile
util = record {
  module_fqn = "app.util";
  imports = [];
  symbols = record { qualname = "helper"; kind = SymbolKind.function_kind; references = [] } ∷ [];
}

abbrev run : ParsedSymbol
run = record {
  qualname = "run";
  kind = SymbolKind.function_kind;
  references =
      record { name = "h.go"; line = 3 }
      ∷ record { name = "run"; line = 4 }
      ∷ record { name = "app.util"; line = 5 }
      ∷ record { name = "h"; line = 6 }
      ∷ [];
}

abbrev main : ParsedFile
main = record {
  module_fqn = "app.main";
  imports = record { module_name = "app.util"; names = ("helper", "h") ∷ [] } ∷ [];
  symbols = run ∷ [];
}

abbrev resolver : Resolver
resolver = make_resolver (main ∷ util ∷ []) []

abbrev links : List ResolvedLink
links =
    record {
      src_module_fqn = "app.main";
      src_qualname = "run";
      dst_slug = "code/app/util/helper";
      dst_module_fqn = "app.util";
      dst_name = "helper";
      line = 3;
    }
    ∷ record {
      src_module_fqn = "app.main";
      src_qualname = "run";
      dst_slug = "code/app/util";
      dst_module_fqn = "app.util";
      dst_name = "";
      line = 5;
    }
    ∷ []

resolve_run : Dict.get (resolve_file resolver main) "run" ≡ some links
unfolding Dict.get Dict.put make_resolver resolve_file resolve_references resolve_one as_sibling
    split_dots as_import best_match first_some splits length match_at build_alias_table contains
    add_alias drop splits_from take first_part has_dot join_dots known_prefix longest_symbol_prefix
    module_to_slug add_entry as_local as_path as_path_at fallback keep_link make_link maybe_link
    resolve_symbols symbols_of
resolve_run = refl

resolve_file-Links_example : Links resolver main "run" links × (links ≢ [])
resolve_file-Links_example = resolve_file-Links resolver main "run" links resolve_run
