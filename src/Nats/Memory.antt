-- ===== src/Nats/Memory.antt =====
-- A bucket in memory: a value of the interface, at which its laws hold.
use fumemory.Base.{arith, ◌≡◌, Option, str_eq, ℕ, ◌+◌, String, refl, none, some, [], if◌then◌else◌}
use fumemory.Base.Dict
use fumemory.Base.Dict.{Dict, get-put, get-remove}
use fumemory.Nats.KeyValue.{KeyValue, Entry, at_revision}

-- The entries, each with the number of writes before it.
pub record Stream (V : Type 0) : Type 0 where
  pub entries : Dict (Entry V)
  pub sequence : ℕ

abbrev pub write : {V : Type 0} → Stream V → String → V → Stream V
write b k v = record {
  entries = Dict.put b.entries k (record { value = v; revision = b.sequence });
  sequence = b.sequence + 1;
}

-- The revisions count from 1.
abbrev pub numbered_entry : {V : Type 0} → Option (Entry V) → Option (Entry V)
numbered_entry none = none
numbered_entry (some e) = some (record e { revision = e.revision + 1 })

abbrev pub read : {V : Type 0} → Stream V → String → Option (Entry V)
read b k = numbered_entry (Dict.get b.entries k)

pub read-write :
    {V : Type 0} (b : Stream V) (k : String) (v : V) (j : String)
    → read (write b k v) j
      ≡ (if str_eq k j then some (record { value = v; revision = b.sequence + 1 }) else read b j)
read-write b k v j =
    ground (arith, get-put b.entries k (record { value = v; revision = b.sequence }) j)

pub read-remove :
    {V : Type 0} (b : Stream V) (k j : String)
    → numbered_entry (Dict.get (Dict.remove b.entries k) j)
      ≡ (if str_eq k j then none else read b j)
read-remove b k j = ground (arith, get-remove b.entries k j)

abbrev pub memory : (V : Type 0) → KeyValue V
memory V = record {
  Bucket = Stream V;
  last = λ b. b.sequence;
  get = read;
  put = write;
  create = λ b k v. elim (read b k) [ none ↦ some (write b k v) | some _ ↦ none ];
  update = λ b k v n. if at_revision (read b k) n then some (write b k v) else none;
  delete = λ b k. record { entries = Dict.remove b.entries k; sequence = b.sequence + 1 };
  last-put = λ b k v. refl;
  get-put = read-write;
  get-delete = read-remove;
  create_lem = λ b k v. refl;
  update_lem = λ b k v n. refl;
}

abbrev pub empty : (V : Type 0) → Stream V
empty V = record { entries = []; sequence = 0 }
