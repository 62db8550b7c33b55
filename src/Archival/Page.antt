-- ===== src/Archival/Page.antt =====
-- memu/archival_pager.py: which rows are paged in.
use fumemory.Base.{
  ℕ, zero, suc, ◌≤◌, ◌<◌, String, ◌==◌, ==_iff, ◌≡◌, refl, sym, subst, true, false, List, arith,
  inl, inr, ◌⊎◌, Bool-cases,
}
use fumemory.Base.Lists.{take}
use fumemory.Nats.KeyValue.{KeyValue}
use fumemory.Archival.{Found, over, fit}

module _ (count_tokens : String → ℕ) (K : KeyValue String) (others : ℕ → K.Bucket → K.Bucket) where
  -- The first `kept` of `n` rows stay: they fit, or there are none, and one row more never fits.
  pub record Fits (current : ℕ) (rows : List Found) (n kept : ℕ) : Type 0 where
    pub few : kept ≤ n
    pub fits : (kept ≡ 0) ⊎ (over count_tokens K others current (take kept rows) ≡ false)
    pub more : (m : ℕ) → kept < m → m ≤ n → over count_tokens K others current (take m rows) ≡ true

  -- Of the rows that the search returned, those that fit beside the tokens of the block stay: the
  -- longest such beginning of the rows, which may be empty.
  fit_lem :
      (n current : ℕ) (rows : List Found)
      → (kept : ℕ) × (fit count_tokens K others n current rows ≡ take kept rows)
        × Fits current rows n kept
  unfolding fit take
  fit_lem zero current rows =
      (0, refl, record { few = omega arith; fits = inl refl; more = λ m a b. absurd (omega arith) })
  fit_lem (suc n) current rows =
      elim (Bool-cases (over count_tokens K others current (take (suc n) rows))) [
        | inr e ↦ (
          suc n,
          rw (e, fit) refl,
          record { few = omega arith; fits = inr e; more = λ m a b. absurd (omega arith) },
        )
        | inl e ↦
            let (kept, same, v) = fit_lem n current rows in
            let few = v.few in
            (
              kept,
              rw (e, fit) same,
              record {
                few = omega arith;
                fits = v.fits;
                more = λ m a b. elim (Bool-cases (m == suc n)) [
                  | inl last ↦
                      subst (λ j. over count_tokens K others current (take j rows) ≡ true)
                        (sym ((==_iff m (suc n)).0 last)) e
                  | inr earlier ↦ v.more m a (ground (arith, earlier))
                ];
              },
            )
      ]
