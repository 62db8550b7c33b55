-- ===== src/Ledger/Window.antt =====
-- memu/bridge_ledger.py: the window of the log, and its pages.
use fumemory.Base.{
  ℕ, ◌+◌, ◌-◌, ◌<◌, ◌≤◌, ltb, String, ◌≡◌, sym, ap, ◌∙◌, List, [], ◌∷◌, ◌++◌, map, arith,
  Bool-cases, inl, inr,
}
use fumemory.Base.Lists.{
  length, take, drop, reverse, foldl, length-append, length-drop, drop-append, drop-drop,
  take-split,
}
use mathlib.Core.List.{append_assoc, append-nil}
use fumemory.Ledger.{
  Raw, BridgeLedger, trim, process_event, process_system_event, process_task, spread,
}
use fumemory.Ledger.Views.{get_event_log}

trim_lem : {A : Type 0} (n : ℕ) (xs : List A) → 0 < n → trim n xs ≡ drop (length xs - n) xs
unfolding trim drop
trim_lem n xs h = elim (Bool-cases (ltb n (length xs))) [
  | inl e ↦ ground (arith, e)
  | inr e ↦ let full : 0 ≡ length xs - n = ground (arith, e) in rw e (ap (λ k. drop k xs) full)
]

-- Trimming once at the end is trimming at each step.
trim-trim :
    {A : Type 0} (n : ℕ) (xs ys : List A) → 0 < n → trim n (trim n xs ++ ys) ≡ trim n (xs ++ ys)
trim-trim n xs ys h =
    let a = length xs - n in
    let inner : trim n xs ++ ys ≡ drop a (xs ++ ys) =
      ap (λ l. l ++ ys) (trim_lem n xs h) ∙ sym (drop-append a xs ys (omega arith)) in
    let count : a + (length (drop a (xs ++ ys)) - n) ≡ length (xs ++ ys) - n =
      rw (length-drop a (xs ++ ys), length-append xs ys) (omega arith) in
    ap (trim n) inner
    ∙ (trim_lem n (drop a (xs ++ ys)) h
        ∙ (drop-drop _ a (xs ++ ys)
            ∙ (ap (λ k. drop k (xs ++ ys)) count ∙ sym (trim_lem n (xs ++ ys) h))))

module _ {Cost : Type 0} (zero_cost : Cost) (add : Cost → Cost → Cost) where
  abbrev pub Stamped : Type 0
  Stamped = String × Raw Cost

  -- The events of a history, processed in order, each with the time at which it came.
  abbrev pub process_all : BridgeLedger Cost → List Stamped → BridgeLedger Cost
  process_all = foldl (λ l (e : Stamped). process_event zero_cost add e.0 e.1 l)

  events-process_event :
      (now : String) (raw : Raw Cost) (l : BridgeLedger Cost)
      → ((process_event zero_cost add now raw l).events ≡ trim l.max_events (l.events ++ raw ∷ []))
        × ((process_event zero_cost add now raw l).max_events ≡ l.max_events)
  unfolding process_event process_system_event process_task spread
  events-process_event now raw l = (ground arith, ground arith)

  trims_each :
      (l : BridgeLedger Cost) (history : List Stamped)
      → 0 < l.max_events
      → l.events ≡ trim l.max_events l.events
      → (process_all l history).events
        ≡ trim l.max_events (l.events ++ map (λ (e : Stamped). e.1) history)
  unfolding foldl
  trims_each l [] h t = t ∙ ap (trim l.max_events) (sym (append-nil l.events))
  trims_each l ((now, raw) ∷ es) h t =
      let n = l.max_events in
      let l' = process_event zero_cost add now raw l in
      let (e, m) = events-process_event now raw l in
      let rest = map (λ (e : Stamped). e.1) es in
      let once : trim n (trim n (l.events ++ raw ∷ [])) ≡ trim n (l.events ++ raw ∷ []) =
        ap (trim n) (sym (append-nil _))
        ∙ (trim-trim n (l.events ++ raw ∷ []) [] h ∙ ap (trim n) (append-nil _)) in
      let whole : trim n (trim n (l.events ++ raw ∷ []) ++ rest) ≡ trim n (l.events ++ raw ∷ rest) =
        trim-trim n (l.events ++ raw ∷ []) rest h
        ∙ ap (trim n) (append_assoc l.events (raw ∷ []) rest) in
      let t' : l'.events ≡ trim l'.max_events l'.events = rw (m, e) (sym once) in
      trims_each l' es (rw m h) t' ∙ rw (m, e) whole

  -- From a log within a positive capacity, the log is after any history the last `max_events` of
  -- what it held and the events that were processed, in their order: all of them where there are no
  -- more, and otherwise without as many of the first as there are too many.
  pub log_is_suffix :
      (l : BridgeLedger Cost) (history : List Stamped)
      → 0 < l.max_events
      → length l.events ≤ l.max_events
      → let seen = l.events ++ map (λ (e : Stamped). e.1) history in
        (process_all l history).events ≡ drop (length seen - l.max_events) seen
  unfolding drop
  log_is_suffix l history h small =
      let n = l.max_events in
      let full : 0 ≡ length l.events - n = omega arith in
      let fits : l.events ≡ trim n l.events =
        ap (λ k. drop k l.events) full ∙ sym (trim_lem n l.events h) in
      trims_each l history h fits ∙ trim_lem n (l.events ++ map (λ (e : Stamped). e.1) history) h

  -- The pages of the log fit together: two pages that follow each other are one larger page.
  pub pages :
      (m n offset : ℕ) (l : BridgeLedger Cost)
      → get_event_log m offset l ++ get_event_log n (offset + m) l ≡ get_event_log (m + n) offset l
  unfolding get_event_log
  pages m n offset l =
      ap (λ k. take m (drop offset (reverse l.events)) ++ take n k)
        (sym (drop-drop m offset (reverse l.events)))
      ∙ take-split m n (drop offset (reverse l.events))
