-- ===== src/SupplyChain/Cached.antt =====
-- memu/supply_chain.py: what the cache answers after the table has changed.
use fumemory.Base.{
  ℕ, String, eq_refl, ◌≡◌, refl, ap, ◌∙◌, true, false, Option, none, some, arith, Option-cases, inl,
  inr,
}
use fumemory.Base.Dict
use fumemory.Base.Dict.{Dict, get-put}
use fumemory.SupplyChain.{
  Floats, LongLeadItem, SupplyChainConnector, get_item, update_row, ordered, mark_ordered,
  mark_delivered, is_open,
}

get_item-cached :
    (id : String) (c : SupplyChainConnector) (item : LongLeadItem)
    → Dict.get c.cache id ≡ some item
    → get_item id c ≡ (some item, c)
unfolding get_item
get_item-cached id c item e = rw (e, get_item) refl

-- After a lookup that found an item, the item is in the cache, and the table is as it was.
get_item-found :
    (id : String) (c : SupplyChainConnector) (item : LongLeadItem)
    → (get_item id c).0 ≡ some item
    → (Dict.get (get_item id c).1.cache id ≡ some item) × ((get_item id c).1.rows ≡ c.rows)
unfolding get_item
get_item-found id c item = elim (Option-cases (Dict.get c.cache id)) [
  | inr (i, e) ↦ rw (e, get_item) (λ h. (e ∙ h, refl))
  | inl e ↦ elim (Option-cases (Dict.get c.rows id)) [
    | inl f ↦ rw (e, get_item, f) (λ h. absurd (ground (arith, h)))
    | inr (row, f) ↦
        rw (e, get_item, f) (λ h. (ground (arith, h, get-put c.cache id row id, eq_refl id), refl))
  ]
]

mark_ordered-known :
    (floats : Floats) (now : ℕ) (id : String) (hours : Option ℕ) (c : SupplyChainConnector)
    (item : LongLeadItem)
    → (get_item id c).0 ≡ some item
    → let takes : ℕ = elim hours [ none ↦ item.estimated_lead_time | some h ↦ h ] in
      let seen = (get_item id c).1 in
      mark_ordered floats now id hours c
      ≡ (true, record seen { rows = update_row (ordered floats now takes) id seen.rows })
unfolding mark_ordered
mark_ordered-known floats now id hours c item e = rw (e, mark_ordered) refl

get-update_row :
    (f : LongLeadItem → LongLeadItem) (id : String) (rows : Dict LongLeadItem) (row : LongLeadItem)
    → Dict.get rows id ≡ some row
    → Dict.get (update_row f id rows) id ≡ some (f row)
get-update_row f id rows row e =
    rw (e, update_row) (ground (arith, get-put rows id (f row) id, eq_refl id))

-- mark_ordered writes the times of the order to the row of an item that it finds, and not to the item
-- in the cache: get_item answers afterwards what it answered before.
mark_ordered_unseen :
    (floats : Floats) (now : ℕ) (id : String) (hours : Option ℕ) (c : SupplyChainConnector)
    (item row : LongLeadItem)
    → (get_item id c).0 ≡ some item
    → Dict.get c.rows id ≡ some row
    → let (answer, after) = mark_ordered floats now id hours c in
      let takes : ℕ = elim hours [ none ↦ item.estimated_lead_time | some h ↦ h ] in
      (answer ≡ true)
      × (Dict.get after.rows id ≡ some (ordered floats now takes row))
      × ((get_item id after).0 ≡ some item)
mark_ordered_unseen floats now id hours c item row e r =
    let takes : ℕ = elim hours [ none ↦ item.estimated_lead_time | some h ↦ h ] in
    let seen = (get_item id c).1 in
    let (cached, same) = get_item-found id c item e in
    rw (mark_ordered-known floats now id hours c item e) (
      refl,
      get-update_row (ordered floats now takes) id seen.rows row (ap (λ d. Dict.get d id) same ∙ r),
      ap (λ a. a.0)
          (get_item-cached id
            (record seen { rows = update_row (ordered floats now takes) id seen.rows }) item
            cached),
    )

get_item-rows : (id : String) (c : SupplyChainConnector) → (get_item id c).1.rows ≡ c.rows
unfolding get_item
get_item-rows id c = elim (Option-cases (Dict.get c.cache id)) [
  | inr (i, e) ↦ rw (e, get_item) refl
  | inl e ↦ elim (Option-cases (Dict.get c.rows id)) [
    | inl f ↦ rw (e, get_item, f) refl
    | inr (row, f) ↦ rw (e, get_item, f) refl
  ]
]

abbrev delivered : ℕ → LongLeadItem → LongLeadItem
delivered now row = record row { delivered_at = some now; updated_at = now }

delivered-open :
    (now : ℕ) (id : String) (c : SupplyChainConnector)
    → is_open (Dict.get c.rows id) ≡ true
    → mark_delivered now id c
      ≡ (true, (get_item id (record c { rows = update_row (delivered now) id c.rows })).1)
unfolding mark_delivered
delivered-open now id c e = rw e refl

delivered-closed :
    (now : ℕ) (id : String) (c : SupplyChainConnector)
    → is_open (Dict.get c.rows id) ≡ false
    → mark_delivered now id c ≡ (false, c)
unfolding mark_delivered
delivered-closed now id c e = rw e refl

-- mark_delivered answers true once: for a row that is open it writes the time, and a second call
-- answers false and changes nothing.
mark_delivered_once :
    (now later : ℕ) (id : String) (c : SupplyChainConnector) (row : LongLeadItem)
    → Dict.get c.rows id ≡ some row
    → row.delivered_at ≡ none
    → let (answer, after) = mark_delivered now id c in
      (answer ≡ true)
      × (Dict.get after.rows id ≡ some (delivered now row))
      × (mark_delivered later id after ≡ (false, after))
mark_delivered_once now later id c row r waits =
    let f = delivered now in
    let updated : SupplyChainConnector = record c { rows = update_row f id c.rows } in
    let first : mark_delivered now id c ≡ (true, (get_item id updated).1) =
      delivered-open now id c (ground (arith, r, waits)) in
    let found : Dict.get (get_item id updated).1.rows id ≡ some (f row) =
      ap (λ d. Dict.get d id) (get_item-rows id updated) ∙ get-update_row f id c.rows row r in
    rw first
      (refl, found, delivered-closed later id (get_item id updated).1 (ground (arith, found)))
