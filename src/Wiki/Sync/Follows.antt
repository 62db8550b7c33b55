-- ===== src/Wiki/Sync/Follows.antt =====
-- memu/wiki/sync.py: after a poll, the index has the vault's files as they are.
use fumemory.Base.{
  ℕ, ◌+◌, ◌≤◌, ltb, String, str_eq, eq_iff, eq_refl, ◌≡◌, refl, ap, ◌∙◌, true, false, Option, none,
  some, List, [], ◌∷◌, map, arith, if◌then◌else◌,
}
use fumemory.Base.Dict
use fumemory.Base.Dict.{Dict, get-put, get-remove}
use fumemory.Base.Lists.{contains, is_unique}
use fumemory.Wiki.Sync.{
  Daemon, should_fire, mark, reindex, handle, dispatch_file, dispatch_files, dispatch_missing,
  dispatch_deleted, diff_and_dispatch,
}

abbrev pub paths : Dict ℕ → List String
paths d = map (λ (e : String × ℕ). e.0) d

-- What the index should have of a path after the first loop.
abbrev pub followed : Option ℕ → Option ℕ → Option ℕ → Option ℕ
followed none before known = known
followed (some t) none known = some t
followed (some t) (some prev) known = if ltb prev t then some t else known

-- What the index has after a poll.
abbrev pub latest : Option ℕ → Option ℕ → Option ℕ
latest none known = known
latest (some t) known = some t

get-none : (d : Dict ℕ) (k : String) → contains k (paths d) ≡ false → Dict.get d k ≡ none
unfolding Dict.get contains
get-none [] k h = refl
get-none ((j, t) ∷ d) k h = ground (arith, h, get-none d k)

apart :
    (p q : String) (ps : List String)
    → contains p ps ≡ false
    → contains q ps ≡ true
    → str_eq p q ≡ false
apart p q ps out among = ground (arith, eq_iff p q, out, among)

module _ (window_ms now : ℕ) where
  -- The debouncer lets the path pass.
  abbrev pub Fires : Daemon → String → Type 0
  Fires d path = should_fire d.deadlines path now ≡ true

  file-index :
      (old : Dict ℕ) (path : String) (t : ℕ) (d : Daemon) (k : String)
      → Fires d path
      → Dict.get (dispatch_file window_ms now old path t d).index k ≡ (
          if str_eq path k
          then followed (some t) (Dict.get old path) (Dict.get d.index path)
          else Dict.get d.index k)
  unfolding dispatch_file handle reindex
  file-index old path t d k fires = ground (arith, fires, eq_iff path k, get-put d.index path t k)

  file-Fires :
      (old : Dict ℕ) (path : String) (t : ℕ) (d : Daemon) (k : String)
      → str_eq path k ≡ false
      → Fires d k
      → Fires (dispatch_file window_ms now old path t d) k
  unfolding dispatch_file handle mark should_fire
  file-Fires old path t d k other fires =
      ground (arith, fires, other, get-put d.deadlines path (now + window_ms) k)

  files-index :
      (old new : Dict ℕ) (d : Daemon) (k : String)
      → is_unique (paths new) ≡ true
      → ((p : String) → contains p (paths new) ≡ true → Fires d p)
      → Dict.get (dispatch_files window_ms now old new d).index k
        ≡ followed (Dict.get new k) (Dict.get old k) (Dict.get d.index k)
  unfolding dispatch_files is_unique contains Dict.get
  files-index old [] d k once fires = refl
  files-index old ((path, t) ∷ new) d k once fires =
      let absent : contains path (paths new) ≡ false = ground (arith, once) in
      let here : Fires d path = fires path (ground (arith, eq_refl path)) in
      let later : (p : String)
          → contains p (paths new) ≡ true
          → Fires (dispatch_file window_ms now old path t d) p =
        λ p h.
          file-Fires old path t d p (apart path p (paths new) absent h)
            (fires p (ground (arith, h))) in
      let rest =
        files-index old new (dispatch_file window_ms now old path t d) k (ground (arith, once))
          later in
      rest
      ∙ ap (followed (Dict.get new k) (Dict.get old k)) (file-index old path t d k here)
      ∙ ground (arith, eq_iff path k, get-none new path absent)

  deleted-index :
      (new old : Dict ℕ) (d : Daemon) (k : String)
      → Dict.get (dispatch_deleted window_ms now new old d).index k ≡ Dict.get d.index k
  unfolding dispatch_deleted dispatch_missing handle reindex
  deleted-index new [] d k = refl
  deleted-index new ((path, t) ∷ old) d k =
      deleted-index new old (dispatch_missing window_ms now new path d) k ∙ ground arith

  settled :
      (before after known : Option ℕ)
      → ((s : ℕ) → before ≡ some s → known ≡ some s)
      → ((s t : ℕ) → before ≡ some s → after ≡ some t → s ≤ t)
      → followed after before known ≡ latest after known
  settled before none known same forward = refl
  settled none (some t) known same forward = refl
  settled (some s) (some t) known same forward =
      let le = forward s t refl refl in let own = same s refl in ground (arith, own, le)

  -- When the debouncer holds nothing back, no path stands twice in the new snapshot, no file went back
  -- in time, and the index had every file as the old snapshot has it, a poll brings the index up to the
  -- new snapshot: each of its files stands in the index as it is now, and of every other path, those of
  -- deleted files included, the index keeps what it had.
  pub diff_and_dispatch_lem :
      (old new : Dict ℕ) (d : Daemon) (k : String)
      → is_unique (paths new) ≡ true
      → ((p : String) → Fires d p)
      → ((p : String) (s : ℕ) → Dict.get old p ≡ some s → Dict.get d.index p ≡ some s)
      → ((p : String) (s t : ℕ) → Dict.get old p ≡ some s → Dict.get new p ≡ some t → s ≤ t)
      → Dict.get (diff_and_dispatch window_ms now old new d).index k
        ≡ latest (Dict.get new k) (Dict.get d.index k)
  unfolding diff_and_dispatch
  diff_and_dispatch_lem old new d k once fires same forward =
      deleted-index new old (dispatch_files window_ms now old new d) k
      ∙ files-index old new d k once (λ p _. fires p)
      ∙ settled (Dict.get old k) (Dict.get new k) (Dict.get d.index k) (same k) (forward k)
