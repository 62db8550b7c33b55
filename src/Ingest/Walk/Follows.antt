-- ===== src/Ingest/Walk/Follows.antt =====
-- memu/ingest/filters.py: the walk against the list of all files of the tree.
use fumemory.Base.{
  String, ◌≡◌, refl, sym, ap, ap2, ◌∙◌, Bool, true, false, ◌&&◌, List, [], ◌∷◌, ◌++◌, map,
  Bool-cases, inl, inr,
}
use fumemory.Base.Lists.{filter}
use fumemory.Rlm.Fusion.{sort_by, insert_by}
use fumemory.Storage.Sqlite.Refines.{filter-append}
use fumemory.Ingest.Filters.{Walker}
use fumemory.Ingest.Walk.{
  Entry, file, directory, symlink, Entries, end, entry, name_of, concat, named_before, in_order,
  accept, enters, walk_entry, walk_each, iter_files,
}

-- A file: the directories that it is in, and its name.
abbrev pub FilePath : Type 0
FilePath = List String × String

abbrev inside : String → FilePath → FilePath
inside d (ds, name) = (d ∷ ds, name)

-- All files of a tree, in the order of the walk.
unfoldable mutual
  unfolding in_order

  files_of : Entry → List FilePath
  files_of (file name lines) = ([], name) ∷ []
  files_of (symlink name) = []
  files_of (directory name es) = map (inside name) (in_order (files_each es))

  files_each : Entries → List (String × List FilePath)
  files_each end = []
  files_each (entry e es) = (name_of e, files_of e) ∷ files_each es

unfoldable pub all_files : Entries → List FilePath
unfolding in_order files_each
all_files root = in_order (files_each root)

-- The path from the root of a file below a directory.
unfoldable pub full : List String → FilePath → List String
full at ([], name) = at ++ name ∷ []
full at (d ∷ ds, name) = full (at ++ d ∷ []) (ds, name)

-- What is done to each list of names in order can be done to the list in order.
module _ {A B : Type 0} (f : List A → List B) (f_nil : f [] ≡ [])
    (f_append : (xs ys : List A) → f (xs ++ ys) ≡ f xs ++ f ys) where
  abbrev each : String × List A → String × List B
  each (name, xs) = (name, f xs)

  insert_by-map :
      (x : String × List A) (xs : List (String × List A))
      → insert_by named_before (each x) (map each xs) ≡ map each (insert_by named_before x xs)
  unfolding insert_by
  insert_by-map x [] = refl
  insert_by-map x (y ∷ ys) = elim (Bool-cases (named_before y x)) [
    | inl e ↦ rw (e, insert_by) (ap (λ zs. each y ∷ zs) (insert_by-map x ys))
    | inr e ↦ rw (e, insert_by) refl
  ]

  sort_by-map :
      (xs : List (String × List A))
      → sort_by named_before (map each xs) ≡ map each (sort_by named_before xs)
  unfolding sort_by
  sort_by-map [] = refl
  sort_by-map (x ∷ xs) =
      ap (insert_by named_before (each x)) (sort_by-map xs)
      ∙ insert_by-map x (sort_by named_before xs)

  concat-map :
      (xs : List (String × List A))
      → concat (map (λ x. x.1) (map each xs)) ≡ f (concat (map (λ x. x.1) xs))
  unfolding concat
  concat-map [] = sym f_nil
  concat-map (x ∷ xs) =
      ap (λ ys. f x.1 ++ ys) (concat-map xs) ∙ sym (f_append x.1 (concat (map (λ y. y.1) xs)))

  in_order-map : (xs : List (String × List A)) → in_order (map each xs) ≡ f (in_order xs)
  unfolding in_order concat
  in_order-map xs =
      ap (λ ys. concat (map (λ y. y.1) ys)) (sort_by-map xs) ∙ concat-map (sort_by named_before xs)

map-append : {A B : Type 0} (g : A → B) (xs ys : List A) → map g (xs ++ ys) ≡ map g xs ++ map g ys
map-append g [] ys = refl
map-append g (x ∷ xs) ys = ap (λ zs. g x ∷ zs) (map-append g xs ys)

module _ (fnmatch : String → String → Bool) (w : Walker) where
  -- A file is kept when the walk enters each directory that it is in, and accepts it.
  unfoldable pub keeps : List String → FilePath → Bool
  unfolding enters accept
  keeps at ([], name) = accept fnmatch w (at ++ name ∷ [])
  keeps at (d ∷ ds, name) = enters fnmatch w at d && keeps (at ++ d ∷ []) (ds, name)

  abbrev kept : List String → List FilePath → List (List String)
  kept at xs = map (full at) (filter (keeps at) xs)

  kept-append :
      (at : List String) (xs ys : List FilePath) → kept at (xs ++ ys) ≡ kept at xs ++ kept at ys
  kept-append at xs ys =
      ap (map (full at)) (filter-append (keeps at) xs ys)
      ∙ map-append (full at) (filter (keeps at) xs) (filter (keeps at) ys)

  kept_nil : (at : List String) → kept at [] ≡ []
  unfolding filter
  kept_nil at = refl

  kept-skipped :
      (at : List String) (d : String) (xs : List FilePath)
      → enters fnmatch w at d ≡ false
      → kept at (map (inside d) xs) ≡ []
  unfolding filter keeps
  kept-skipped at d [] e = refl
  kept-skipped at d ((ds, name) ∷ xs) e = rw (e, filter) (kept-skipped at d xs e)

  kept-entered :
      (at : List String) (d : String) (xs : List FilePath)
      → enters fnmatch w at d ≡ true
      → kept at (map (inside d) xs) ≡ kept (at ++ d ∷ []) xs
  unfolding filter keeps full
  kept-entered at d [] e = refl
  kept-entered at d ((ds, name) ∷ xs) e = elim (Bool-cases (keeps (at ++ d ∷ []) (ds, name))) [
    | inl k ↦
        rw (e, filter, k) (ap (λ ys. full (at ++ d ∷ []) (ds, name) ∷ ys) (kept-entered at d xs e))
    | inr k ↦ rw (e, filter, k) (kept-entered at d xs e)
  ]

  mutual
    unfolding walk_entry files_of keeps full filter in_order

    walk_entry-kept :
        (at : List String) (e : Entry) → walk_entry fnmatch w at e ≡ kept at (files_of e)
    walk_entry-kept at (file name lines) = elim (Bool-cases (accept fnmatch w (at ++ name ∷ []))) [
      | inl a ↦ rw (a, filter) refl
      | inr a ↦ rw (a, filter) refl
    ]
    walk_entry-kept at (symlink name) = refl
    walk_entry-kept at (directory name es) = elim (Bool-cases (enters fnmatch w at name)) [
      | inl e ↦
          rw (e, walk_entry)
            (ap in_order (walk_each-kept (at ++ name ∷ []) es)
              ∙ in_order-map (kept (at ++ name ∷ [])) (kept_nil (at ++ name ∷ []))
                  (kept-append (at ++ name ∷ [])) (files_each es)
              ∙ sym (kept-entered at name (in_order (files_each es)) e))
      | inr e ↦ rw (e, walk_entry) (sym (kept-skipped at name (in_order (files_each es)) e))
    ]

    walk_each-kept :
        (at : List String) (es : Entries)
        → walk_each fnmatch w at es ≡ map (λ (n, xs). (n, kept at xs)) (files_each es)
    walk_each-kept at end = refl
    walk_each-kept at (entry e es) =
        ap2 (λ xs ys. (name_of e, xs) ∷ ys) (walk_entry-kept at e) (walk_each-kept at es)

  -- iter_files yields, of all files of the tree in the order of their directories' entries, exactly the
  -- ones that accept takes and whose directories it enters, each as often and in that order.
  pub iter_files_lem :
      (root : Entries)
      → iter_files fnmatch w root ≡ map (full []) (filter (keeps []) (all_files root))
  unfolding iter_files all_files
  iter_files_lem root =
      ap in_order (walk_each-kept [] root)
      ∙ in_order-map (kept []) (kept_nil []) (kept-append []) (files_each root)
