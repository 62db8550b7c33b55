-- ===== src/Storage/Tests.antt =====
-- memu/storage: the stores on small examples.
use fumemory.Base.{ℕ, String, eq_iff, ◌≡◌, refl, none, some, [], ◌∷◌, err, arith}
use fumemory.Base.Dict
use fumemory.Base.Lists.{filter}
use fumemory.Storage.Node.{WikiNode, LinkRecord, Details}
use fumemory.Storage.Sqlite.{
  SqliteBackend, slug_taken, put_node, resolve_slug, delete_node, slug_not_unique,
}
use fumemory.Storage.Sqlite.Refines.{put_node_lem}
use fumemory.Storage.Sqlite.Renamed.{renamed_slug_stays}
use fumemory.Storage.Sqlite.Slugs.{
  empty, done, step, puts, deletes, IsSound, Steps-IsSound, empty-IsSound,
}
use fumemory.Storage.Markdown
use fumemory.Storage.Markdown.Links.{put_link_lem}

abbrev plain : Details
plain = record {
  tags = [];
  metadata = [];
  extra = [];
  source = none;
  happened_at = none;
  agent_id = "user";
  memory_type = "observation";
  salience = 500;
  confidence = 1000;
}

abbrev link_to : String → ℕ → LinkRecord
link_to slug strength = record {
  src_slug = "";
  dst_slug = slug;
  kind = "related";
  strength = strength;
  src_id = none;
}

abbrev note : WikiNode
note = record {
  id = "n1";
  slug = "ideas";
  kind = "note";
  title = "Ideas";
  body = "text";
  links = link_to "other" 5 ∷ link_to "other" 9 ∷ [];
  details = plain;
  created_at = none;
  updated_at = none;
  reinforcement_count = 3;
  last_reinforced_at = none;
}

abbrev stored : SqliteBackend
stored = (put_node 7 note empty).1

abbrev rival : WikiNode
rival = record note { id = "n2" }

put_node_lem_example : (put_node 8 rival stored).0 ≡ err slug_not_unique
unfolding slug_taken put_node Dict.get Dict.put
put_node_lem_example = ((put_node_lem 8 rival stored).0 refl).0

abbrev linked : WikiNode
linked = record note { links = link_to "other" 5 ∷ link_to "other" 9 ∷ link_to "early" 1 ∷ [] }

Steps-IsSound_example : IsSound (delete_node "ideas" stored)
Steps-IsSound_example =
    Steps-IsSound (step (puts 7 note) (step (deletes "ideas") (done (delete_node "ideas" stored))))

renamed_slug_stays_example :
    resolve_slug "ideas" (put_node 9 (record note { slug = "plans" }) stored).1 ≡ some "n1"
unfolding Dict.get slug_taken put_node Dict.put
renamed_slug_stays_example =
    (renamed_slug_stays 7 9 note "plans" empty empty-IsSound
      (λ e. absurd (ground (arith, (eq_iff "ideas" "plans").1 e)))
      (λ e. absurd (ground (arith, (eq_iff "n1" "ideas").1 e))) refl refl refl).0

-- The name that a path ends with stands for the stem, and the text itself for its digest.
abbrev same : String → String
same s = s

abbrev vault : Markdown.Vault
vault = (Markdown.put_node same same same 7 none note []).1

abbrev as_read : WikiNode
as_read = record note {
  body = "text\n";
  links =
      Markdown.read_link "ideas" (link_to "other" 5)
      ∷ Markdown.read_link "ideas" (link_to "other" 9)
      ∷ [];
  created_at = some 7;
  updated_at = some 7;
}

put_link_lem_example :
    (Markdown.put_link same same same 8 (record (link_to "third" 1) { src_slug = "ideas" }) vault).1
    ≡ (Markdown.reinforce_node same 8 "ideas" vault).1
unfolding Markdown.find_by_slug Markdown.put_node Dict.put filter
put_link_lem_example =
    put_link_lem same same same 8 (record (link_to "third" 1) { src_slug = "ideas" }) as_read vault
      refl
