-- ===== src/Base/Dict/Keys.antt =====
-- Dicts whose keys are distinct, and the deletion of the entries that pass a test.
use fumemory.Base.{
  String, str_eq, eq_iff, ◌≡◌, refl, sym, ap, ◌∙◌, Bool, true, false, ◌&&◌, ◌||◌, not, none, some,
  [], ◌∷◌, if◌then◌else◌, arith, Bool-cases, inl, inr,
}
use fumemory.Base.Dict.{Dict, get, put, remove}
use fumemory.Base.Lists.{All}

module _ {ℓ} {V : Type ℓ} where
  unfoldable pub has_key : String → Dict V → Bool
  has_key k [] = false
  has_key k ((j, v) ∷ d) = str_eq j k || has_key k d

  unfoldable pub is_keyed : Dict V → Bool
  unfolding has_key
  is_keyed [] = true
  is_keyed ((j, v) ∷ d) = not (has_key j d) && is_keyed d

  unfoldable pub drop_where : (String → V → Bool) → Dict V → Dict V
  drop_where p [] = []
  drop_where p ((k, v) ∷ d) = let rest = drop_where p d in if p k v then rest else (k, v) ∷ rest

  has_key-put :
      (d : Dict V) (k : String) (v : V) (j : String)
      → has_key j (put d k v) ≡ (has_key j d || str_eq k j)
  unfolding has_key put
  has_key-put [] k v j = ground arith
  has_key-put ((i, w) ∷ d) k v j =
      ground (arith, eq_iff i k, eq_iff i j, eq_iff k j, has_key-put d k v j)

  pub is_keyed-put :
      (d : Dict V) (k : String) (v : V) → is_keyed d ≡ true → is_keyed (put d k v) ≡ true
  unfolding is_keyed put has_key
  is_keyed-put [] k v h = refl
  is_keyed-put ((i, w) ∷ d) k v h =
      ground (arith, h, eq_iff i k, eq_iff k i, has_key-put d k v i, is_keyed-put d k v)

  pub get-has_key : (d : Dict V) (k : String) → has_key k d ≡ false → get d k ≡ none
  unfolding get has_key
  get-has_key [] k h = refl
  get-has_key ((i, w) ∷ d) k h = ground (arith, h, get-has_key d k)

  has_key-drop_where :
      (p : String → V → Bool) (d : Dict V) (k : String)
      → has_key k d ≡ false
      → has_key k (drop_where p d) ≡ false
  unfolding has_key drop_where
  has_key-drop_where p [] k h = refl
  has_key-drop_where p ((i, w) ∷ d) k h = ground (arith, h, has_key-drop_where p d k)

  pub is_keyed-drop_where :
      (p : String → V → Bool) (d : Dict V) → is_keyed d ≡ true → is_keyed (drop_where p d) ≡ true
  unfolding is_keyed drop_where has_key
  is_keyed-drop_where p [] h = refl
  is_keyed-drop_where p ((i, w) ∷ d) h =
      ground (arith, h, has_key-drop_where p d i, is_keyed-drop_where p d)

  pub get-drop_where :
      (p : String → V → Bool) (d : Dict V) (k : String)
      → is_keyed d ≡ true
      → get (drop_where p d) k
        ≡ elim (get d k) [ none ↦ none | some v ↦ if p k v then none else some v ]
  unfolding is_keyed drop_where get
  get-drop_where p [] k h = refl
  get-drop_where p ((i, w) ∷ d) k h = elim (Bool-cases (str_eq i k)) [
    | inl e ↦
        let same : i ≡ k = (eq_iff i k).0 e in
        let gone : get (drop_where p d) k ≡ none =
          get-has_key (drop_where p d) k
            (has_key-drop_where p d k (ap (λ s. has_key s d) (sym same) ∙ ground (arith, h))) in
        ground (arith, e, gone, ap (λ s. p s w) same)
    | inr e ↦ ground (arith, h, e, get-drop_where p d k)
  ]

pub All-remove {ℓ κ} :
    {V : Type ℓ} (P : String × V → Type κ) (d : Dict V) (k : String) → All P d → All P (remove d k)
unfolding remove
All-remove P [] k h = tt
All-remove P ((j, v) ∷ d) k h = elim (Bool-cases (str_eq j k)) [
  | inl e ↦ rw (e, remove) (All-remove P d k h.1)
  | inr e ↦ rw (e, remove) (h.0, All-remove P d k h.1)
]
