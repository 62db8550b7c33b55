-- ===== src/Storage/Node.antt =====
-- memu/storage/base.py: `WikiNode`, `LinkRecord` and the hash of a node's content.
use Prim.Native.Char.{code}
use fumemory.Base.{
  ℕ, ◌==◌, ◌&&◌, String, ◌<>◌, Option, none, some, List, if◌then◌else◌, Bool, true, false,
}
use fumemory.Base.Dict.{Dict}
use fumemory.CoreMemory.Texts.{is_space, strip}

-- Three fields of a link that `put_link` and the nodes' tables keep; `src_id` may be unknown.
pub record LinkRecord : Type 0 where
  pub src_slug : String
  pub dst_slug : String
  pub kind : String
  pub strength : ℕ
  pub src_id : Option String

-- The fields of a node that are only copied.
pub record Details : Type 0 where
  pub tags : List String
  pub metadata : Dict String
  pub extra : Dict String
  pub source : Option (Dict String)
  pub happened_at : Option ℕ
  pub agent_id : String
  pub memory_type : String
  pub salience : ℕ
  pub confidence : ℕ

pub record WikiNode : Type 0 where
  pub id : String
  pub slug : String
  pub kind : String
  pub title : String
  pub body : String
  pub links : List LinkRecord
  pub details : Details
  pub created_at : Option ℕ
  pub updated_at : Option ℕ
  pub reinforcement_count : ℕ
  pub last_reinforced_at : Option ℕ

-- `_WS_RE.sub(" ", text)`; the flag says that the last character was space.
unfoldable pub collapse : Bool → String → String
collapse after String.[] = String.[]
collapse true (String.◌∷◌ c s) =
    if is_space (code c) then collapse true s else String.◌∷◌ c (collapse false s)
collapse false (String.◌∷◌ c s) =
    if is_space (code c) then String.◌∷◌ " " (collapse true s) else String.◌∷◌ c (collapse false s)

-- `text.replace("\r\n", "\n")`
unfoldable pub unix_lines : String → String
unix_lines String.[] = String.[]
unix_lines (String.◌∷◌ c String.[]) = String.◌∷◌ c String.[]
unix_lines (String.◌∷◌ c (String.◌∷◌ d s)) =
    let rest = unix_lines (String.◌∷◌ d s) in
    if code c == b'\r' && code d == b'\n' then rest else String.◌∷◌ c rest

-- `effective_time`: zero, the epoch, is a time like any other.
unfoldable pub effective_time : WikiNode → Option ℕ
effective_time n = elim n.details.happened_at [ some t ↦ some t | none ↦ n.created_at ]

module _ (lower digest : String → String) where
  unfoldable pub normalize_for_hash : String → String
  normalize_for_hash text = lower (strip (collapse false (unix_lines text)))

  unfoldable pub content_hash : WikiNode → String
  content_hash n = digest (normalize_for_hash n.title <> ("\0" <> normalize_for_hash n.body))
