-- ===== src/Nats/KeyValue.antt =====
-- The key-value buckets of nats-py, which lane_lock.py and core_memory.py call. The library is not
-- part of the repository: its calls are a parameter, and the laws are what its documentation says.
-- `get` raises on a missing key, `create` on one that is there, `update` on another revision; each
-- of these is `none`. A write makes the next revision of the bucket's stream.
use fumemory.Base.{
  ℕ, ◌+◌, ◌==◌, String, str_eq, ◌≡◌, Bool, false, Option, none, some, if◌then◌else◌,
}

pub record Entry (V : Type 0) : Type 0 where
  pub value : V
  pub revision : ℕ

abbrev pub at_revision : {V : Type 0} → Option (Entry V) → ℕ → Bool
at_revision none n = false
at_revision (some e) n = e.revision == n

pub record KeyValue (V : Type 0) : Type 1 where
  pub Bucket : Type 0
  pub last : Bucket → ℕ
  pub get : Bucket → String → Option (Entry V)
  pub put : Bucket → String → V → Bucket
  pub create : Bucket → String → V → Option Bucket
  pub update : Bucket → String → V → ℕ → Option Bucket
  pub delete : Bucket → String → Bucket
  pub last-put : (b : Bucket) (k : String) (v : V) → last (put b k v) ≡ last b + 1
  pub get-put :
      (b : Bucket) (k : String) (v : V) (j : String)
      → get (put b k v) j
        ≡ (if str_eq k j then some (record { value = v; revision = last b + 1 }) else get b j)
  pub get-delete :
      (b : Bucket) (k j : String) → get (delete b k) j ≡ (if str_eq k j then none else get b j)
  pub create_lem :
      (b : Bucket) (k : String) (v : V)
      → create b k v ≡ elim (get b k) [ none ↦ some (put b k v) | some _ ↦ none ]
  pub update_lem :
      (b : Bucket) (k : String) (v : V) (n : ℕ)
      → update b k v n ≡ (if at_revision (get b k) n then some (put b k v) else none)
