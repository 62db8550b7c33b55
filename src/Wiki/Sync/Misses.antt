-- ===== src/Wiki/Sync/Misses.antt =====
-- memu/wiki/sync.py: what becomes of a change that the debouncer holds back.
use fumemory.Base.{
  ℕ, ◌+◌, ltb, String, eq_iff, eq_refl, ◌≡◌, refl, ap, ◌∙◌, true, false, Option, some, [], ◌∷◌,
  arith, inl, inr, Bool-cases, Option-cases,
}
use fumemory.Base.Dict
use fumemory.Base.Dict.{Dict, get-put, get-remove}
use fumemory.Base.Lists.{All, contains, is_unique}
use fumemory.Wiki.Sync.{
  Change, created, modified, deleted, Daemon, should_fire, mark, reindex, handle, dispatch_file,
  dispatch_files, dispatch_missing, dispatch_deleted, diff_and_dispatch,
}
use fumemory.Wiki.Sync.Follows.{paths}

module _ (window_ms now : ℕ) where
  -- The debouncer holds the path back, and the index has `known` of it.
  record Held (k : String) (known : Option ℕ) (d : Daemon) : Type 0 where
    pub holds : should_fire d.deadlines k now ≡ false
    pub keeps : Dict.get d.index k ≡ known

  other_index :
      (path : String) (change : Change) (d : Daemon) (k : String) (known : Option ℕ)
      → Held k known d
      → Dict.get (handle window_ms now path change d).index k ≡ known
  unfolding handle reindex should_fire
  other_index path (created t) d k known v =
      ground (arith, v.holds, v.keeps, eq_iff path k, get-put d.index path t k)
  other_index path (modified t) d k known v =
      ground (arith, v.holds, v.keeps, eq_iff path k, get-put d.index path t k)
  other_index path deleted d k known v = ground (arith, v.keeps)

  handle-Held :
      (path : String) (change : Change) (d : Daemon) (k : String) (known : Option ℕ)
      → Held k known d
      → Held k known (handle window_ms now path change d)
  unfolding handle mark reindex should_fire
  handle-Held path change d k known v =
      let holds = v.holds in
      let keeps = v.keeps in
      record {
        holds = ground (arith, holds, eq_iff path k, get-put d.deadlines path (now + window_ms) k);
        keeps = other_index path change d k known v;
      }

  file-Held :
      (old : Dict ℕ) (path : String) (t : ℕ) (d : Daemon) (k : String) (known : Option ℕ)
      → Held k known d
      → Held k known (dispatch_file window_ms now old path t d)
  unfolding dispatch_file
  file-Held old path t d k known v = elim (Option-cases (Dict.get old path)) [
    | inl e ↦ rw (e, dispatch_file) (handle-Held path (created t) d k known v)
    | inr (prev, e) ↦ elim (Bool-cases (ltb prev t)) [
      | inl late ↦ rw (e, late, dispatch_file) (handle-Held path (modified t) d k known v)
      | inr same ↦ rw (e, same, dispatch_file) v
    ]
  ]

  files-Held :
      (old new : Dict ℕ) (d : Daemon) (k : String) (known : Option ℕ)
      → Held k known d
      → Held k known (dispatch_files window_ms now old new d)
  unfolding dispatch_files
  files-Held old [] d k known v = v
  files-Held old ((path, t) ∷ new) d k known v =
      files-Held old new (dispatch_file window_ms now old path t d) k known
        (file-Held old path t d k known v)

  deleted-Held :
      (new old : Dict ℕ) (d : Daemon) (k : String) (known : Option ℕ)
      → Held k known d
      → Held k known (dispatch_deleted window_ms now new old d)
  unfolding dispatch_deleted dispatch_missing
  deleted-Held new [] d k known v = v
  deleted-Held new ((path, t) ∷ old) d k known v = elim (Option-cases (Dict.get new path)) [
    | inl e ↦
        rw (e, dispatch_deleted, dispatch_missing)
          (deleted-Held new old (handle window_ms now path deleted d) k known
            (handle-Held path deleted d k known v))
    | inr (u, e) ↦ rw (e, dispatch_deleted, dispatch_missing) (deleted-Held new old d k known v)
  ]

abbrev Listed : Dict ℕ → Dict ℕ → Type 0
Listed all items = All (λ (e : String × ℕ). Dict.get all e.0 ≡ some e.1) items

Listed-skip :
    (j : String) (t : ℕ) (all items : Dict ℕ)
    → contains j (paths items) ≡ false
    → Listed all items
    → Listed ((j, t) ∷ all) items
unfolding Dict.get contains
Listed-skip j t all [] out h = tt
Listed-skip j t all ((k, u) ∷ items) out (h, hs) = (
  ground (arith, h, out, eq_iff j k, eq_iff k j),
  Listed-skip j t all items (ground (arith, out)) hs,
)

Listed-self : (d : Dict ℕ) → is_unique (paths d) ≡ true → Listed d d
unfolding is_unique Dict.get
Listed-self [] once = tt
Listed-self ((j, t) ∷ d) once = (
  ground (arith, eq_refl j),
  Listed-skip j t d d (ground (arith, once)) (Listed-self d (ground (arith, once))),
)

module _ (window_ms now : ℕ) where
  files-same :
      (all items : Dict ℕ) (d : Daemon)
      → Listed all items
      → dispatch_files window_ms now all items d ≡ d
  unfolding dispatch_files dispatch_file
  files-same all [] d h = refl
  files-same all ((path, t) ∷ items) d (h, hs) = ground (arith, h, files-same all items d hs)

  deleted-same :
      (all items : Dict ℕ) (d : Daemon)
      → Listed all items
      → dispatch_deleted window_ms now all items d ≡ d
  unfolding dispatch_deleted dispatch_missing
  deleted-same all [] d h = refl
  deleted-same all ((path, t) ∷ items) d (h, hs) = ground (arith, h, deleted-same all items d hs)

-- A change that a poll finds while the debouncer holds its path back is never made good: the index has
-- of the path what it had before that poll, and still after a later poll at any time that finds the
-- same snapshot, in which no path stands twice.
pub diff_and_dispatch_misses :
    (window_ms now later : ℕ) (old new : Dict ℕ) (d : Daemon) (k : String)
    → is_unique (paths new) ≡ true
    → should_fire d.deadlines k now ≡ false
    → Dict.get
        (diff_and_dispatch window_ms later new new
          (diff_and_dispatch window_ms now old new d)).index
        k
      ≡ Dict.get d.index k
unfolding diff_and_dispatch
diff_and_dispatch_misses window_ms now later old new d k once holds =
    let d1 = dispatch_files window_ms now old new d in
    let d2 = dispatch_deleted window_ms now new old d1 in
    let held = deleted-Held window_ms now new old d1 k (Dict.get d.index k) (
      files-Held window_ms now old new d k (Dict.get d.index k)
        (record { holds = holds; keeps = refl })) in
    ap (λ (x : Daemon). Dict.get x.index k)
      (ap (dispatch_deleted window_ms later new new)
          (files-same window_ms later new new d2 (Listed-self new once))
        ∙ deleted-same window_ms later new new d2 (Listed-self new once))
    ∙ held.keeps
