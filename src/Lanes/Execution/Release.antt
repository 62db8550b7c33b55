-- ===== src/Lanes/Execution/Release.antt =====
-- memu/lane_lock.py: `_release_all_lanes` frees the locks that are still held, and nothing else.
use fumemory.Base.{
  ℕ, String, str_eq, eq_iff, eq_refl, ==_iff, ◌≡◌, ◌↔◌, refl, ap, subst, ◌∙◌, true, false, Option,
  none, some, Bool-cases, List, [], ◌∷◌, ok, err, arith, ◌⊎◌, inl, inr, if◌then◌else◌,
}
use fumemory.Nats.KeyValue.{KeyValue, Entry}
use fumemory.Nats.Values.{value_of, value-delete}
use fumemory.Lanes.Model.{
  Payload, LaneValue, blank, garbled, payload, LaneLock, Raised, bad_json, lane_released, World,
  Executor, is_text, is_token, publish,
}
use fumemory.Lanes.Execution.{lock_state, is_ours, release_lane, release_each, release_all}

-- The payload that a lane's value is, if it is one.
abbrev pub payload_at : Option LaneValue → Option Payload
payload_at (some (payload p)) = some p
payload_at _ = none

lock_state-payload_at :
    (x : Executor) (lock : LaneLock) (o : Option (Entry LaneValue))
    → ((e : Raised) × (lock_state o ≡ err e) × (payload_at (value_of o) ≡ none))
      ⊎ (lock_state o ≡ ok (payload_at (value_of o)))
unfolding lock_state
lock_state-payload_at x lock none = inr refl
lock_state-payload_at x lock (some e) = by_value e.value refl
  where
    by_value :
        (v : LaneValue)
        → e.value ≡ v
        → ((r : Raised) × (lock_state (some e) ≡ err r) × (payload_at (some e.value) ≡ none))
          ⊎ (lock_state (some e) ≡ ok (payload_at (some e.value)))
    by_value blank h = inr (ground arith)
    by_value garbled h = inl (bad_json, ground arith, ground arith)
    by_value (payload p) h = inr (ground arith)

-- The payload is of the lock: it names this gateway, this task and the lock's token.
abbrev pub IsLock : Executor → LaneLock → Option Payload → Type 0
IsLock x lock none = ⊥
IsLock x lock (some p) =
    (p.gateway_id ≡ some x.gateway_id)
    × (p.task_id ≡ some x.task.task_id)
    × (p.fencing_token ≡ some lock.fencing_token)

is_text-lem : (o : Option String) (s : String) → (is_text o s ≡ true) ↔ (o ≡ some s)
is_text-lem none s = (λ h. absurd (ground (arith, h)), λ h. absurd (ground (arith, h)))
is_text-lem (some t) s = (
  λ h. ap some ((eq_iff t s).0 h),
  λ h. let same : t ≡ s = ground (arith, h) in (eq_iff t s).1 same,
)

is_token-lem : (o : Option ℕ) (n : ℕ) → (is_token o n ≡ true) ↔ (o ≡ some n)
is_token-lem none n = (λ h. absurd (ground (arith, h)), λ h. absurd (ground (arith, h)))
is_token-lem (some m) n = (
  λ h. ap some ((==_iff m n).0 h),
  λ h. let same : m ≡ n = ground (arith, h) in (==_iff m n).1 same,
)

is_ours-IsLock :
    (x : Executor) (lock : LaneLock) (o : Option Payload)
    → (is_ours x lock o ≡ true → IsLock x lock o) × (IsLock x lock o → is_ours x lock o ≡ true)
unfolding is_ours
is_ours-IsLock x lock none = (λ h. absurd (ground (arith, h)), λ h. elim h [ ])
is_ours-IsLock x lock (some p) =
    let gateway = is_text-lem p.gateway_id x.gateway_id in
    let task = is_text-lem p.task_id x.task.task_id in
    let token = is_token-lem p.fencing_token lock.fencing_token in
    (
      λ h. (gateway.0 (ground (arith, h)), task.0 (ground (arith, h)), token.0 (ground (arith, h))),
      λ (g, t, n). rw (gateway.1 g, task.1 t, token.1 n) refl,
    )

not_ours :
    (x : Executor) (lock : LaneLock) (o : Option Payload)
    → ¬ IsLock x lock o
    → is_ours x lock o ≡ false
not_ours x lock o n = elim (Bool-cases (is_ours x lock o)) [
  | inl e ↦ absurd (n ((is_ours-IsLock x lock o).0 e))
  | inr e ↦ e
]

-- No lock of the list that is for the lane `k` is the one that the payload is of.
abbrev pub AllForeign : Executor → List LaneLock → String → Option Payload → Type 0
AllForeign x [] k p = Unit
AllForeign x (lock ∷ locks) k p = (lock.lane_id ≡ k → ¬ IsLock x lock p) × AllForeign x locks k p

abbrev pub Holds : LaneLock → List LaneLock → Type 0
Holds lock [] = ⊥
Holds lock (l ∷ ls) = (l ≡ lock) ⊎ Holds lock ls

module _ {N : KeyValue LaneValue} {F : KeyValue (Option ℕ)} (x : Executor) where
  abbrev value_in : World N F → String → Option LaneValue
  value_in w k = value_of (N.get w.lanes k)

  lanes-publish :
      (lock : LaneLock) (w : World N F)
      → (publish x (lane_released lock.lane_id lock.fencing_token) w).lanes ≡ w.lanes
  unfolding publish
  lanes-publish lock w = ground arith

  release_lane_value :
      (lock : LaneLock) (w : World N F) (k : String)
      → value_in (release_lane N F x lock w) k ≡ (
          if is_ours x lock (payload_at (value_in w lock.lane_id))
          then (if str_eq lock.lane_id k then none else value_in w k)
          else value_in w k)
  unfolding release_lane
  release_lane_value lock w k = elim (lock_state-payload_at x lock (N.get w.lanes lock.lane_id)) [
    | inl (e, bad, no_payload) ↦ unfold is_ours in ground arith
    | inr good ↦ elim (Bool-cases (is_ours x lock (payload_at (value_in w lock.lane_id)))) [
      | inl ours ↦ ground (
        arith,
        lanes-publish lock (record w { lanes = N.delete w.lanes lock.lane_id }),
        value-delete N w.lanes lock.lane_id k,
      )
      | inr foreign ↦ ground arith
    ]
  ]

  -- A release makes no lane taken, and changes no value.
  release_each_shrinks :
      (locks : List LaneLock) (w : World N F) (k : String)
      → (value_in (release_each N F x locks w) k ≡ none)
        ⊎ (value_in (release_each N F x locks w) k ≡ value_in w k)
  unfolding release_each
  release_each_shrinks [] w k = inr refl
  release_each_shrinks (lock ∷ locks) w k =
      ground (
        arith,
        release_each_shrinks locks (release_lane N F x lock w) k,
        release_lane_value lock w k,
      )

  release_each_keeps :
      (locks : List LaneLock) (w : World N F) (k : String)
      → AllForeign x locks k (payload_at (value_in w k))
      → value_in (release_each N F x locks w) k ≡ value_in w k
  unfolding release_each
  release_each_keeps [] w k h = refl
  release_each_keeps (lock ∷ locks) w k (h, hs) = release_each_keeps locks _ k (rw same hs) ∙ same
    where
      same : value_in (release_lane N F x lock w) k ≡ value_in w k
      same = elim (Bool-cases (str_eq lock.lane_id k)) [
        | inl here ↦
            let e : lock.lane_id ≡ k = (eq_iff lock.lane_id k).0 here in
            let foreign : is_ours x lock (payload_at (value_in w k)) ≡ false =
              not_ours x lock (payload_at (value_in w k)) (h e) in
            ground (arith, release_lane_value lock w k)
        | inr there ↦ ground (arith, release_lane_value lock w k)
      ]

  release_each_frees :
      (locks : List LaneLock) (w : World N F) (lock : LaneLock)
      → Holds lock locks
      → is_ours x lock (payload_at (value_in w lock.lane_id)) ≡ true
      → value_in (release_each N F x locks w) lock.lane_id ≡ none
  unfolding release_each
  release_each_frees [] w lock h ours = elim h [ ]
  release_each_frees (l ∷ locks) w lock (inl e) ours = ground (
    arith,
    release_lane_value l w lock.lane_id,
    eq_refl lock.lane_id,
    release_each_shrinks locks (release_lane N F x l w) lock.lane_id,
  )
  release_each_frees (l ∷ locks) w lock (inr h) ours =
      elim (release_each_shrinks (l ∷ []) w lock.lane_id) [
        | inl gone ↦
            ground (arith, gone, release_each_shrinks locks (release_lane N F x l w) lock.lane_id)
        | inr same ↦ release_each_frees locks (release_lane N F x l w) lock h (rw same ours)
      ]

  -- `_release_all_lanes` frees each lane whose value names this gateway, this task and the token of
  -- one of the executor's locks for the lane. A lane whose value differs in one of the three from
  -- each of these locks keeps its value, so a lock that a peer took over stays.
  pub release_all_lem :
      (w : World N F) (k : String)
      → let w' = (release_all N F x w).1 in
        (AllForeign x x.acquired_locks k (payload_at (value_in w k)) → value_in w' k ≡ value_in w k)
        × ((lock : LaneLock)
            → Holds lock x.acquired_locks
            → lock.lane_id ≡ k
            → IsLock x lock (payload_at (value_in w k))
            → value_in w' k ≡ none)
  unfolding release_all
  release_all_lem w k = (
    release_each_keeps x.acquired_locks w k,
    λ lock held at ours.
        subst (λ j. value_in (release_each N F x x.acquired_locks w) j ≡ none) at
          (release_each_frees x.acquired_locks w lock held
            (rw at ((is_ours-IsLock x lock (payload_at (value_in w k))).1 ours))),
  )
