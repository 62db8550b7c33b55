-- ===== src/Ingest/Imports.antt =====
-- memu/ingest/resolve.py: `_AliasTable` and `_build_alias_table`. A table maps a local name to a
-- module and the parts of the target in it.
use fumemory.Base.{
  String, ◌<>◌, str_eq, Option, none, some, is_some, List, [], ◌∷◌, ◌++◌, if◌then◌else◌,
}
use fumemory.Base.Dict
use fumemory.Base.Dict.{Dict}
use fumemory.Base.Lists.{contains, first_some, splits}
use fumemory.Ingest.Names.{join_dots}

-- `Import`: the pairs of an imported name and its local alias.
pub record Import : Type 0 where
  pub module_name : String
  pub names : List (String × String)

abbrev pub AliasTable : Type 0
AliasTable = Dict (String × List String)

-- `add`: the first entry of a name stays.
unfoldable pub add_alias : String → String → List String → AliasTable → AliasTable
add_alias alias module_name target table =
    if str_eq alias ""
    then table
    else if is_some (Dict.get table alias)
    then table
    else Dict.put table alias (module_name, target)

unfoldable pub match_at : AliasTable → List String × List String → Option (String × List String)
match_at table (front, back) = elim (Dict.get table (join_dots front)) [
  | none ↦ none
  | some entry ↦ some (entry.0, entry.1 ++ back)
]

-- `best_match`: the longest prefix of the parts that the table has.
unfoldable pub best_match : AliasTable → List String → Option (String × List String)
best_match table parts = first_some (match_at table) (splits parts)

-- `from pkg.mod import orig as alias`
add_name : List String → String → AliasTable → String × String → AliasTable
add_name known module_name table (orig, alias) =
    let submodule = if str_eq module_name "" then orig else module_name <> ("." <> orig) in
    if str_eq alias ""
    then table
    else if contains submodule known
    then add_alias alias submodule [] table
    else add_alias alias module_name (orig ∷ []) table

add_names : List String → String → List (String × String) → AliasTable → AliasTable
add_names known module_name [] table = table
add_names known module_name (n ∷ ns) table =
    add_names known module_name ns (add_name known module_name table n)

-- `import pkg.mod as alias`; a bare import registers its dotted path again.
add_module : String → String → AliasTable → AliasTable
add_module module_name alias table =
    let bound = add_alias alias module_name [] table in
    if str_eq alias module_name then add_alias module_name module_name [] bound else bound

add_import : List String → Import → AliasTable → AliasTable
add_import known imp table = elim imp.names [
  | [] ↦ table
  | n ∷ ns ↦ elim ns [
    | [] ↦
        if str_eq n.0 ""
        then add_module imp.module_name n.1 table
        else add_names known imp.module_name imp.names table
    | _ ∷ _ ↦ add_names known imp.module_name imp.names table
  ]
]

-- The loop of `_build_alias_table`
unfoldable pub build_alias_table : List Import → List String → AliasTable → AliasTable
unfolding add_import add_module add_names add_name
build_alias_table [] known table = table
build_alias_table (imp ∷ imps) known table =
    build_alias_table imps known (add_import known imp table)
