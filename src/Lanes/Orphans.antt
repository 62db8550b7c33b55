-- ===== src/Lanes/Orphans.antt =====
-- memu/lane_lock.py: a round of `orphan_detector_loop`. `is_uuid` stands for the check that `UUID`
-- makes of a task's id.
use fumemory.Base.{
  ℕ, ◌+◌, ◌-◌, ◌/◌, ltb, String, str_eq, eq_iff, ◌≡◌, refl, Bool, true, false, Option, none, some,
  Option-cases, List, [], ◌∷◌, ◌++◌, arith, inl, inr, if◌then◌else◌,
}
use fumemory.Nats.KeyValue.{KeyValue}
use fumemory.Nats.Values.{value_of, value-delete}
use fumemory.Lanes.Model.{lane_ttl, LaneValue, blank, garbled, payload, task_orphaned, World}

pub record Orphan : Type 0 where
  pub task_id : String
  pub gateway_id : String
  pub age : ℕ

-- What the payload says, if all that the round reads is there and the task's id is one.
readable : (String → Bool) → Option ℕ → Option String → Option String → Option (String × String × ℕ)
readable is_uuid (some t) (some task) (some gateway) =
    if is_uuid task then some (task, gateway, t) else none
readable is_uuid _ _ _ = none

overdue : ℕ → Option (String × String × ℕ) → Option Orphan
overdue now none = none
overdue now (some (task, gateway, t)) =
    if ltb (t + lane_ttl) now
    then some (record { task_id = task; gateway_id = gateway; age = now - t })
    else none

-- What cannot be read raises, and the round goes on with the next key.
unfoldable pub orphan_of : (String → Bool) → ℕ → Option LaneValue → Option Orphan
unfolding readable overdue
orphan_of is_uuid now none = none
orphan_of is_uuid now (some blank) = none
orphan_of is_uuid now (some garbled) = none
orphan_of is_uuid now (some (payload p)) =
    overdue now (readable is_uuid p.acquired_at p.task_id p.gateway_id)

module _ (N : KeyValue LaneValue) (F : KeyValue (Option ℕ)) where
  reclaim : String → Option Orphan → World N F → World N F
  reclaim key none w = w
  reclaim key (some o) w = record w {
    lanes = N.delete w.lanes key;
    events = w.events ++ task_orphaned o.task_id o.gateway_id (o.age / 1000) ∷ [];
  }

  -- One round of `orphan_detector_loop` over the keys that `keys()` gave.
  unfoldable pub orphan_round : (String → Bool) → ℕ → List String → World N F → World N F
  unfolding reclaim
  orphan_round is_uuid now [] w = w
  orphan_round is_uuid now (key ∷ keys) w =
      orphan_round is_uuid now keys
        (reclaim key (orphan_of is_uuid now (value_of (N.get w.lanes key))) w)

-- What a round leaves in a lane that it looks at.
unfoldable pub left : (String → Bool) → ℕ → Option LaneValue → Option LaneValue
left is_uuid now v = elim (orphan_of is_uuid now v) [ none ↦ v | some _ ↦ none ]

left_twice :
    (is_uuid : String → Bool) (now : ℕ) (v : Option LaneValue)
    → left is_uuid now (left is_uuid now v) ≡ left is_uuid now v
unfolding left
left_twice is_uuid now v = elim (Option-cases (orphan_of is_uuid now v)) [
  | inl e ↦ ground (arith, e)
  | inr (o, e) ↦ unfold orphan_of in ground (arith, e)
]

unfoldable pub is_key : String → List String → Bool
is_key k [] = false
is_key k (j ∷ js) = let rest = is_key k js in if str_eq j k then true else rest

module _ {N : KeyValue LaneValue} {F : KeyValue (Option ℕ)} where
  reclaim-value :
      (is_uuid : String → Bool) (now : ℕ) (key k : String) (w : World N F)
      → value_of
          (N.get (reclaim N F key (orphan_of is_uuid now (value_of (N.get w.lanes key))) w).lanes k)
        ≡ (if str_eq key k
            then left is_uuid now (value_of (N.get w.lanes k))
            else value_of (N.get w.lanes k))
  unfolding reclaim left
  reclaim-value is_uuid now key k w =
      elim (Option-cases (orphan_of is_uuid now (value_of (N.get w.lanes key)))) [
        | inl e ↦ rw (e, reclaim) (ground (arith, e, eq_iff key k))
        | inr (o, e) ↦
            rw (e, reclaim) (ground (arith, e, eq_iff key k, value-delete N w.lanes key k))
      ]

  -- After a round, a lane is free if it was a key and its lock was overdue; every other lane holds
  -- what it held. A lane whose lock cannot be read is never freed.
  orphan_round_lem :
      (is_uuid : String → Bool) (now : ℕ) (keys : List String) (w : World N F) (k : String)
      → value_of (N.get (orphan_round N F is_uuid now keys w).lanes k) ≡ (
          if is_key k keys
          then left is_uuid now (value_of (N.get w.lanes k))
          else value_of (N.get w.lanes k))
  unfolding orphan_round is_key
  orphan_round_lem is_uuid now [] w k = refl
  orphan_round_lem is_uuid now (key ∷ keys) w k = ground (
    arith,
    reclaim-value is_uuid now key k w,
    left_twice is_uuid now (value_of (N.get w.lanes k)),
    orphan_round_lem is_uuid now keys
        (reclaim N F key (orphan_of is_uuid now (value_of (N.get w.lanes key))) w) k,
  )
