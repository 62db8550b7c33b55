-- ===== src/Lanes/Execution/Entering.antt =====
-- memu/lane_lock.py: what `__aenter__` holds, whether it returns or raises.
use fumemory.Base.{
  ℕ, suc, String, str_eq, eq_iff, eq_refl, ◌≡◌, sym, subst, ap, ◌∙◌, false, Option, some,
  Bool-cases, Result-cases, List, [], ◌∷◌, ◌++◌, ok, err, arith, inl, inr,
}
use fumemory.Nats.KeyValue.{KeyValue}
use fumemory.Nats.Values.{value_of}
use fumemory.Lanes.Model.{Payload, LaneValue, payload, LaneLock, Raised, World, Executor}
use fumemory.Lanes.Acquire.{acquire_lane, lock_data}
use fumemory.Lanes.Acquire.Laws.{acquire_taken, acquire_refused}
use fumemory.Lanes.Acquire.Steps.{IsReclaimable}
use fumemory.Lanes.Execution.{acquire_each, with_lock, aenter, lanes_of}

-- What a lane holds under a lock of the gateway for the task.
abbrev pub held_payload : String → String → ℕ → ℕ → LaneValue
held_payload gateway task t token = payload (record {
  gateway_id = some gateway;
  task_id = some task;
  fencing_token = some token;
  acquired_at = some t;
})

ours_not_reclaimable :
    (now t token : ℕ) (x : Executor) (q : Payload)
    → some (payload q) ≡ some (held_payload x.gateway_id x.task.task_id t token)
    → IsReclaimable now x q
    → ⊥
ours_not_reclaimable now t token x q e (foreign, old) =
    ground (arith, eq_refl x.gateway_id, eq_refl x.task.task_id)

module _ {N : KeyValue LaneValue} {F : KeyValue (Option ℕ)} where
  -- Every lock is what its lane holds: the gateway, the task and the lock's token.
  abbrev pub AllHeld : String → String → List LaneLock → World N F → Type 0
  AllHeld gateway task [] w = Unit
  AllHeld gateway task (lock ∷ locks) w =
      ((t : ℕ) × (value_of (N.get w.lanes lock.lane_id)
          ≡ some (held_payload gateway task t lock.fencing_token)))
      × AllHeld gateway task locks w

  AllHeld-append :
      (gateway task : String) (lock : LaneLock) (locks : List LaneLock) (w : World N F) (t : ℕ)
      → AllHeld gateway task locks w
      → value_of (N.get w.lanes lock.lane_id)
        ≡ some (held_payload gateway task t lock.fencing_token)
      → AllHeld gateway task (locks ++ lock ∷ []) w
  AllHeld-append gateway task lock [] w t h e = ((t, e), tt)
  AllHeld-append gateway task lock (l ∷ ls) w t h e =
      (h.0, AllHeld-append gateway task lock ls w t h.1 e)

  -- The lock is taken on a lane that no lock of the executor is on, so the others stay.
  taken-AllHeld :
      (now : ℕ) (x : Executor) (lane : String) (w : World N F) (new : LaneLock)
      (locks : List LaneLock)
      → (acquire_lane N F now x lane w).0 ≡ ok new
      → AllHeld x.gateway_id x.task.task_id locks w
      → AllHeld x.gateway_id x.task.task_id locks (acquire_lane N F now x lane w).1
  taken-AllHeld now x lane w new [] taken h = tt
  taken-AllHeld now x lane w new (l ∷ ls) taken ((t, e), hs) =
      ((t, kept), taken-AllHeld now x lane w new ls taken hs)
    where
      other : str_eq new.lane_id l.lane_id ≡ false
      other = elim (Bool-cases (str_eq new.lane_id l.lane_id)) [
        | inr differ ↦ differ
        | inl same ↦
            let found = (acquire_taken now x lane w new taken).2 in
            let same_lane : new.lane_id ≡ l.lane_id = (eq_iff new.lane_id l.lane_id).0 same in
            absurd (elim found [
              | inl free ↦ ground (arith, same_lane)
              | inr (q, held, may) ↦
                  ours_not_reclaimable now t l.fencing_token x q
                    (sym held ∙ (ap (λ k. value_of (N.get w.lanes k)) same_lane ∙ e)) may
            ])
      ]

      kept :
          value_of (N.get (acquire_lane N F now x lane w).1.lanes l.lane_id)
          ≡ some (held_payload x.gateway_id x.task.task_id t l.fencing_token)
      kept = ground (arith, other, (acquire_taken now x lane w new taken).3 l.lane_id)

  refused-AllHeld :
      (now : ℕ) (x : Executor) (lane : String) (w : World N F) (e : Raised)
      → (acquire_lane N F now x lane w).0 ≡ err e
      → AllHeld x.gateway_id x.task.task_id x.acquired_locks w
      → AllHeld x.gateway_id x.task.task_id x.acquired_locks (acquire_lane N F now x lane w).1
  refused-AllHeld now x lane w e refused h =
      subst (AllHeld x.gateway_id x.task.task_id x.acquired_locks)
        (sym (acquire_refused now x lane w e refused)) h

  with_lock-AllHeld :
      (now : ℕ) (x : Executor) (lane : String) (w : World N F) (new : LaneLock)
      → (acquire_lane N F now x lane w).0 ≡ ok new
      → AllHeld x.gateway_id x.task.task_id x.acquired_locks w
      → AllHeld x.gateway_id x.task.task_id
          (with_lock x new).acquired_locks
          (acquire_lane N F now x lane w).1
  unfolding with_lock lock_data
  with_lock-AllHeld now x lane w new taken h =
      AllHeld-append x.gateway_id x.task.task_id new x.acquired_locks
        (acquire_lane N F now x lane w).1 now
        (taken-AllHeld now x lane w new x.acquired_locks taken h)
        (ground (arith, eq_refl new.lane_id, (acquire_taken now x lane w new taken).3 new.lane_id))

  acquire_each-AllHeld :
      (clock : ℕ → ℕ) (lanes : List String) (i : ℕ) (x : Executor) (w : World N F)
      → AllHeld x.gateway_id x.task.task_id x.acquired_locks w
      → let (r, x', w') = acquire_each N F clock i lanes x w in
        AllHeld x.gateway_id x.task.task_id x'.acquired_locks w'
  unfolding acquire_each with_lock
  acquire_each-AllHeld clock [] i x w h = h
  acquire_each-AllHeld clock (lane ∷ lanes) i x w h =
      elim (Result-cases (acquire_lane N F (clock i) x lane w).0) [
        | inr (e, refused) ↦
            rw (refused, acquire_each) (refused-AllHeld (clock i) x lane w e refused h)
        | inl (new, taken) ↦
            rw (taken, acquire_each)
              (acquire_each-AllHeld clock lanes (suc i) (with_lock x new)
                (acquire_lane N F (clock i) x lane w).1
                (with_lock-AllHeld (clock i) x lane w new taken h))
      ]

  -- Entering from an executor that holds no lock, whether it returns or raises: every lock that is
  -- acquired is held in its lane. What is acquired before an exception stays held.
  aenter_holds :
      (task_lane : String → String) (clock : ℕ → ℕ) (x : Executor) (w : World N F)
      → x.acquired_locks ≡ []
      → let (r, x', w') = aenter N F task_lane clock x w in
        AllHeld x.gateway_id x.task.task_id x'.acquired_locks w'
  unfolding aenter
  aenter_holds task_lane clock x w none_held =
      acquire_each-AllHeld clock (lanes_of task_lane x.task) 0 x w (rw none_held tt)
