-- ===== src/SupplyChain.antt =====
-- memu/supply_chain.py: items with a long lead time, in a table and in a cache before it. Times are
-- natural numbers. A lead time is a float other than NaN and stands by its place in the order of the
-- floats, negative ones first, so that two lead times compare as the source compares them.
pub mod Cached
pub mod Critical
mod Tests
use fumemory.Base.{
  ℕ, leb, ltb, String, str_eq, Bool, true, false, ◌&&◌, ◌||◌, not, Option, none, some, is_some,
  List, [], ◌∷◌, map, if◌then◌else◌,
}
use fumemory.Base.Dict
use fumemory.Base.Dict.{Dict}
use fumemory.Base.Lists.{length, contains, filter}
use fumemory.Rlm.Fusion.{sort_by}

-- What is computed with lead times: the place of `0`, the place of `hours * 0.8` by that of `hours`, and
-- `ordered_at + timedelta(hours=hours)`.
pub record Floats : Type 0 where
  pub zero_hours : ℕ
  pub eight_tenths : ℕ → ℕ
  pub after_hours : ℕ → ℕ → ℕ

pub record LongLeadItem : Type 0 where
  pub item_id : String
  pub item_name : String
  pub estimated_lead_time : ℕ
  pub lead_time_category : String
  pub in_stock : Bool
  pub required_by_tasks : List String
  pub blocking_tasks : List String
  pub ordered_at : Option ℕ
  pub expected_delivery : Option ℕ
  pub delivered_at : Option ℕ
  pub updated_at : ℕ

-- `rows` is the table `long_lead_items` by its key.
pub record SupplyChainConnector : Type 0 where
  pub rows : Dict LongLeadItem
  pub cache : Dict LongLeadItem

-- The row that an INSERT of the item leaves: the columns that it does not name get their defaults, or
-- stay as they are in an older row, of which only the tasks change.
abbrev pub inserted : ℕ → LongLeadItem → Option LongLeadItem → LongLeadItem
inserted now item none = record item {
  ordered_at = none;
  expected_delivery = none;
  delivered_at = none;
  updated_at = now;
}
inserted now item (some row) = record row {
  updated_at = now;
  required_by_tasks = item.required_by_tasks;
  blocking_tasks = item.blocking_tasks;
}

unfoldable pub register_item :
    ℕ → LongLeadItem → SupplyChainConnector → String × SupplyChainConnector
register_item now item c = (
  item.item_id,
  record {
    rows = Dict.put c.rows item.item_id (inserted now item (Dict.get c.rows item.item_id));
    cache = Dict.put c.cache item.item_id item;
  },
)

unfoldable pub get_item : String → SupplyChainConnector → Option LongLeadItem × SupplyChainConnector
get_item id c = elim (Dict.get c.cache id) [
  | some item ↦ (some item, c)
  | none ↦ elim (Dict.get c.rows id) [
    | none ↦ (none, c)
    | some row ↦ (some row, record c { cache = Dict.put c.cache id row })
  ]
]

-- The rows of a table that pass a test.
rows_where : (LongLeadItem → Bool) → Dict LongLeadItem → List LongLeadItem
rows_where p [] = []
rows_where p ((id, row) ∷ rows) = let rest = rows_where p rows in if p row then row ∷ rest else rest

abbrev pub longer : LongLeadItem → LongLeadItem → Bool
longer a b = ltb b.estimated_lead_time a.estimated_lead_time

unfoldable pub get_items_for_task : String → SupplyChainConnector → List LongLeadItem
unfolding contains sort_by rows_where
get_items_for_task task c =
    sort_by longer (rows_where (λ row. contains task row.required_by_tasks) c.rows)

-- `ASC NULLS LAST`
abbrev pub sooner : Option ℕ → Option ℕ → Bool
sooner none b = false
sooner (some t) none = true
sooner (some t) (some u) = ltb t u

unfoldable pub get_blocking_items : String → SupplyChainConnector → List LongLeadItem
unfolding contains sort_by rows_where
get_blocking_items task c =
    sort_by (λ a b. sooner a.expected_delivery b.expected_delivery)
      (rows_where (λ row. contains task row.blocking_tasks && not (is_some row.delivered_at))
        c.rows)

-- `UPDATE … WHERE item_id = …`
abbrev pub update_row :
    (LongLeadItem → LongLeadItem) → String → Dict LongLeadItem → Dict LongLeadItem
update_row f id rows = elim (Dict.get rows id) [ none ↦ rows | some row ↦ Dict.put rows id (f row) ]

abbrev pub ordered : Floats → ℕ → ℕ → LongLeadItem → LongLeadItem
ordered floats now hours row = record row {
  ordered_at = some now;
  expected_delivery = some (floats.after_hours now hours);
  updated_at = now;
}

-- `mark_ordered`, with the time that the item takes if it is known.
unfoldable pub mark_ordered :
    Floats → ℕ → String → Option ℕ → SupplyChainConnector → Bool × SupplyChainConnector
unfolding get_item
mark_ordered floats now id hours c =
    let (item, seen) = get_item id c in
    elim item [
      | none ↦ (false, seen)
      | some i ↦
          let takes : ℕ = elim hours [ none ↦ i.estimated_lead_time | some h ↦ h ] in
          (true, record seen { rows = update_row (ordered floats now takes) id seen.rows })
    ]

abbrev pub is_open : Option LongLeadItem → Bool
is_open none = false
is_open (some row) = not (is_some row.delivered_at)

-- `mark_delivered`; the item is read again to be logged.
unfoldable pub mark_delivered : ℕ → String → SupplyChainConnector → Bool × SupplyChainConnector
unfolding get_item
mark_delivered now id c =
    let updated = record c {
      rows = update_row (λ row. record row { delivered_at = some now; updated_at = now }) id c.rows;
    } in
    if is_open (Dict.get c.rows id) then (true, (get_item id updated).1) else (false, c)

-- `max(item.estimated_lead_time_hours for item in items)`, where there are items; no place is before 0.
unfoldable pub max_lead_time : List LongLeadItem → ℕ
max_lead_time [] = 0
max_lead_time (i ∷ is) =
    let rest = max_lead_time is in
    if leb rest i.estimated_lead_time then i.estimated_lead_time else rest

abbrev pub is_critical : Floats → ℕ → LongLeadItem → Bool
is_critical floats longest i = leb (floats.eight_tenths longest) i.estimated_lead_time

-- The answer of `check_critical_path`; the recommendation is to order the items that are not ordered.
pub record CriticalPath : Type 0 where
  pub has_long_lead_items : Bool
  pub critical_path_time : ℕ
  pub total_items : ℕ
  pub critical_items : List LongLeadItem
  pub unordered : List LongLeadItem

unfoldable pub critical_path : Floats → List LongLeadItem → CriticalPath
unfolding max_lead_time
critical_path floats items =
    let critical = filter (is_critical floats (max_lead_time items)) items in
    record {
      has_long_lead_items = elim items [ [] ↦ false | (i ∷ is) ↦ true ];
      critical_path_time = elim items [
        | [] ↦ floats.zero_hours
        | (i ∷ is) ↦ max_lead_time (i ∷ is)
      ];
      total_items = length items;
      critical_items = critical;
      unordered = filter (λ i. not (is_some i.ordered_at)) critical;
    }

unfoldable pub check_critical_path : Floats → String → SupplyChainConnector → CriticalPath
unfolding get_items_for_task critical_path
check_critical_path floats task c = critical_path floats (get_items_for_task task c)

is_overdue : ℕ → LongLeadItem → Bool
is_overdue now row = elim row.expected_delivery [
  | none ↦ false
  | some t ↦ ltb t now && not (is_some row.delivered_at)
]

unfoldable pub get_overdue_items : ℕ → SupplyChainConnector → List LongLeadItem
unfolding sort_by rows_where is_overdue
get_overdue_items now c =
    sort_by (λ a b. sooner a.expected_delivery b.expected_delivery)
      (rows_where (is_overdue now) c.rows)
