-- ===== src/Nats/Values.antt =====
-- What a bucket holds under each key, without the revisions.
use fumemory.Base.{String, str_eq, ◌≡◌, Option, none, some, arith, if◌then◌else◌}
use fumemory.Nats.KeyValue.{KeyValue, Entry}

abbrev pub value_of : {V : Type 0} → Option (Entry V) → Option V
value_of none = none
value_of (some e) = some e.value

module _ {V : Type 0} (K : KeyValue V) where
  pub value-put :
      (b : K.Bucket) (k : String) (v : V) (j : String)
      → value_of (K.get (K.put b k v) j) ≡ (if str_eq k j then some v else value_of (K.get b j))
  value-put b k v j = rw (K.get-put b k v j) (ground arith)

  pub value-delete :
      (b : K.Bucket) (k j : String)
      → value_of (K.get (K.delete b k) j) ≡ (if str_eq k j then none else value_of (K.get b j))
  value-delete b k j = rw (K.get-delete b k j) (ground arith)
