-- ===== src/Lanes/Acquire/Laws.antt =====
-- memu/lane_lock.py: what `_acquire_lane` does when no other gateway comes in between.
use fumemory.Base.{
  ℕ, String, str_eq, ◌≡◌, refl, Option, none, some, Result-cases, ok, err, arith, ◌⊎◌, inl, inr,
  if◌then◌else◌,
}
use fumemory.Hardening.{sanitize_nats_subject}
use fumemory.Nats.KeyValue.{KeyValue}
use fumemory.Nats.Values.{value_of, value-put, value-delete}
use fumemory.Lanes.Model.{
  Payload, LaneValue, payload, LaneLock, Raised, invalid_subject, Event, World, Executor, publish,
}
use fumemory.Lanes.Acquire.{lock_data, acquire_lane}
use fumemory.Lanes.Acquire.Steps.{
  token_after, IsReclaimable, claimed, taken_from, Attempt, five_awaits, five_awaits-Attempt,
}

module _ {N : KeyValue LaneValue} {F : KeyValue (Option ℕ)} (now : ℕ) (x : Executor) where
  lanes-publish : (e : Event) (w : World N F) → (publish x e w).lanes ≡ w.lanes
  unfolding publish
  lanes-publish e w = ground arith

  fencing-publish : (e : Event) (w : World N F) → (publish x e w).fencing ≡ w.fencing
  unfolding publish
  fencing-publish e w = ground arith

  acquire_lane-Attempt :
      (lane : String) (w : World N F)
      → ((e : Raised) × (acquire_lane N F now x lane w ≡ (err e, w)))
        ⊎ ((lane_id : String) × (sanitize_nats_subject lane ≡ ok lane_id)
            × Attempt now x lane_id w (acquire_lane N F now x lane w))
  unfolding acquire_lane
  acquire_lane-Attempt lane w = elim (Result-cases (sanitize_nats_subject lane)) [
    | inl (lane_id, clean) ↦ inr (
      lane_id,
      clean,
      rw (clean, acquire_lane) (unfold five_awaits in five_awaits-Attempt now x lane_id w),
    )
    | inr (e, dirty) ↦ inl (invalid_subject, rw (dirty, acquire_lane))
  ]

  -- An attempt that is refused changes neither bucket, and publishes nothing.
  pub acquire_refused :
      (lane : String) (w : World N F) (e : Raised)
      → (acquire_lane N F now x lane w).0 ≡ err e
      → (acquire_lane N F now x lane w).1 ≡ w
  acquire_refused lane w e h = ground (arith, acquire_lane-Attempt lane w)

  taken-lanes :
      (lane : String) (w : World N F) (b : N.Bucket) (k : String)
      → value_of (N.get (taken_from now x lane w b).lanes k) ≡ (
          if str_eq lane k
          then some (payload (lock_data now x (token_after (value_of (F.get w.fencing lane)))))
          else value_of (N.get b k))
  taken-lanes lane w b k = rw lanes-publish (value-put N b lane (payload (lock_data now x _)) k)

  taken-fencing :
      (lane : String) (w : World N F) (b : N.Bucket) (k : String)
      → value_of (F.get (taken_from now x lane w b).fencing k) ≡ (
          if str_eq lane k
          then some (some (token_after (value_of (F.get w.fencing lane))))
          else value_of (F.get w.fencing k))
  taken-fencing lane w b k = rw fencing-publish (value-put F w.fencing lane (some _) k)

  -- Under the other keys, a deletion first makes no difference.
  taken-deleted :
      (lane : String) (w : World N F) (k : String)
      → value_of (N.get (taken_from now x lane w (N.delete w.lanes lane)).lanes k) ≡ (
          if str_eq lane k
          then some (payload (lock_data now x (token_after (value_of (F.get w.fencing lane)))))
          else value_of (N.get w.lanes k))
  taken-deleted lane w k =
      ground (arith, taken-lanes lane w (N.delete w.lanes lane) k, value-delete N w.lanes lane k)

  -- An attempt that succeeds found the lane free, or held by another holder whose lock was stale or
  -- had no readable time. The lock has the next fencing token; the lane holds it, the fence counter
  -- is that token, and all other lanes and counters are as they were.
  pub acquire_taken :
      (lane : String) (w : World N F) (lock : LaneLock)
      → (acquire_lane N F now x lane w).0 ≡ ok lock
      → let w' = (acquire_lane N F now x lane w).1 in
        (sanitize_nats_subject lane ≡ ok lock.lane_id)
        × (lock
            ≡ claimed now x lock.lane_id (token_after (value_of (F.get w.fencing lock.lane_id))))
        × ((N.get w.lanes lock.lane_id ≡ none)
            ⊎ ((q : Payload) × (value_of (N.get w.lanes lock.lane_id) ≡ some (payload q))
                × IsReclaimable now x q))
        × ((k : String)
            → value_of (N.get w'.lanes k) ≡ (
                if str_eq lock.lane_id k
                then some (payload (lock_data now x lock.fencing_token))
                else value_of (N.get w.lanes k)))
        × ((k : String)
            → value_of (F.get w'.fencing k) ≡ (
                if str_eq lock.lane_id k
                then some (some lock.fencing_token)
                else value_of (F.get w.fencing k)))
  acquire_taken lane w lock h = elim (acquire_lane-Attempt lane w) [
    | inl (e, refuse) ↦ ground arith
    | inr (lane_id, clean, inl (e, refuse)) ↦ ground arith
    | inr (lane_id, clean, inr (inl (free, took))) ↦
        let e : lock ≡ claimed now x lane_id (token_after (value_of (F.get w.fencing lane_id))) =
          ground arith in
        rw (took, e)
          (clean, refl, inl free, taken-lanes lane_id w w.lanes, taken-fencing lane_id w w.lanes)
    | inr (lane_id, clean, inr (inr (q, held, may, took))) ↦
        let e : lock ≡ claimed now x lane_id (token_after (value_of (F.get w.fencing lane_id))) =
          ground arith in
        rw (took, e)
          (
            clean,
            refl,
            inr (q, held, may),
            taken-deleted lane_id w,
            taken-fencing lane_id w (N.delete w.lanes lane_id),
          )
  ]
