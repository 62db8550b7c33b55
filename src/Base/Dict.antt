-- ===== src/Base/Dict.antt =====
-- Python's `dict` with string keys, in insertion order. Clients prove by the laws.
pub mod Keys
use Prim.Native.String.{String}
use mathlib.Core.Path.{◌≡◌, refl, sym, subst}
use mathlib.Core.Logic.{inl, inr}
use mathlib.Core.Option.{Option, none, some}
use mathlib.Core.List.{List, [], ◌∷◌}
use native.Mathlib.Omega.{arith}
use text.Mathlib.Text.{◌==◌ as str_eq}
use text.Mathlib.TextEquality.{eq_iff}
use text.Mathlib.TextPositions.{eq_refl}
use fumemory.Base.Tests.{if◌then◌else◌, Bool-cases}
use fumemory.Base.Lists.{All}

abbrev pub Dict {ℓ} : Type ℓ → Type ℓ
Dict V = List (String × V)

module _ {ℓ} {V : Type ℓ} where
  -- `d.get(k)`
  unfoldable pub get : Dict V → String → Option V
  get [] k = none
  get ((j, v) ∷ d) k = if str_eq j k then some v else get d k

  -- `d[k] = v`
  unfoldable pub put : Dict V → String → V → Dict V
  put [] k v = (k, v) ∷ []
  put ((j, w) ∷ d) k v = if str_eq j k then (j, v) ∷ d else (j, w) ∷ put d k v

  -- `d.pop(k, None)`
  unfoldable pub remove : Dict V → String → Dict V
  remove [] k = []
  remove ((j, w) ∷ d) k = let rest = remove d k in if str_eq j k then rest else (j, w) ∷ rest

  pub get-put :
      (d : Dict V) (k : String) (v : V) (j : String)
      → get (put d k v) j ≡ (if str_eq k j then some v else get d j)
  unfolding get put
  get-put [] k v j = refl
  get-put ((i, w) ∷ d) k v j = ground (arith, eq_iff k j, eq_iff i k, eq_iff i j, get-put d k v j)

  pub get-remove :
      (d : Dict V) (k j : String) → get (remove d k) j ≡ (if str_eq k j then none else get d j)
  unfolding get remove
  get-remove [] k j = ground arith
  get-remove ((i, w) ∷ d) k j = ground (arith, eq_iff k j, eq_iff i k, eq_iff i j, get-remove d k j)

pub get-put_self {ℓ} : {V : Type ℓ} (d : Dict V) (k : String) (v : V) → get (put d k v) k ≡ some v
get-put_self d k v = ground (arith, get-put d k v k, eq_refl k)

pub All-put {ℓ κ} :
    {V : Type ℓ} (P : String × V → Type κ) (d : Dict V) (k : String) (v : V)
    → All P d
    → P (k, v)
    → All P (put d k v)
unfolding put
All-put P [] k v h p = (p, tt)
All-put P ((j, w) ∷ d) k v h p = elim (Bool-cases (str_eq j k)) [
  | inl e ↦ rw (e, put) (subst (λ i. P (i, v)) (sym ((eq_iff j k).0 e)) p, h.1)
  | inr e ↦ rw (e, put) (h.0, All-put P d k v h.1 p)
]

pub All-get {ℓ κ} :
    {V : Type ℓ} (P : String × V → Type κ) (d : Dict V) (k : String) (v : V)
    → All P d
    → get d k ≡ some v
    → P (k, v)
unfolding get
All-get P [] k v h e = ground (arith, e)
All-get P ((j, w) ∷ d) k v h e = elim (Bool-cases (str_eq j k)) [
  | inl same ↦
      let own : w ≡ v = ground (arith, same, e) in
      subst (λ i. P (i, v)) ((eq_iff j k).0 same) (subst (λ x. P (j, x)) own h.0)
  | inr apart ↦ All-get P d k v h.1 (ground (arith, apart, e))
]

pub ruleset dict_laws = (get-put, get-remove)
