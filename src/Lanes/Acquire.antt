-- ===== src/Lanes/Acquire.antt =====
-- memu/lane_lock.py: `_acquire_lane`. Each await is a step of its own, so that the steps of several
-- gateways can interleave; `acquire_lane` makes the steps of one gateway in a row.
pub mod Steps
pub mod Laws
use fumemory.Base.{
  ℕ, zero, suc, ◌+◌, ltb, String, str_eq, Bool, true, false, ◌&&◌, Option, none, some, List, [],
  ◌∷◌, ◌++◌, Result, ok, err, if◌then◌else◌,
}
use fumemory.Hardening.{sanitize_nats_subject}
use fumemory.Nats.KeyValue.{KeyValue, Entry}
use fumemory.Lanes.Model.{
  lane_ttl, Payload, LaneValue, blank, garbled, payload, LaneLock, Raised, invalid_subject,
  bad_json, duplicate_claim, lane_contested, Event, lane_acquired, World, Executor, is_text,
  publish,
}

-- Where an acquisition stands between two awaits.
pub data Phase : Type 0 where
  begin expired cleared : Phase
  numbered created : ℕ → Phase
  acquired : LaneLock → Phase
  refused : Raised → Phase

unfoldable pub lock_data : ℕ → Executor → ℕ → Payload
lock_data now x token = record {
  gateway_id = some x.gateway_id;
  task_id = some x.task.task_id;
  fencing_token = some token;
  acquired_at = some now;
}

-- The tests on the holder that was read.
judge_age : ℕ → Option ℕ → Phase
judge_age now none = expired
judge_age now (some acquired_at) =
    if ltb (acquired_at + lane_ttl) now then expired else refused lane_contested

judge : ℕ → Executor → Payload → Phase
unfolding judge_age
judge now x p =
    if is_text p.gateway_id x.gateway_id && is_text p.task_id x.task.task_id
    then refused duplicate_claim
    else judge_age now p.acquired_at

look : ℕ → Executor → Option (Entry LaneValue) → Phase
unfolding judge
look now x none = cleared
look now x (some e) = elim e.value [
  | blank ↦ cleared
  | garbled ↦ refused bad_json
  | payload p ↦ judge now x p
]

-- A token that is missing, or is no number, counts as 0.
next_token : Option (Entry (Option ℕ)) → ℕ
next_token none = 1
next_token (some e) = elim e.value [ none ↦ 1 | some n ↦ n + 1 ]

module _ (N : KeyValue LaneValue) (F : KeyValue (Option ℕ)) where
  create_lock : ℕ → Executor → String → ℕ → World N F → Phase × World N F
  create_lock now x lane token w = elim (N.create w.lanes lane (payload (lock_data now x token))) [
    | none ↦ (refused lane_contested, w)
    | some lanes ↦ (created token, record w { lanes = lanes })
  ]

  -- `fencing_kv.put` and the event.
  announce : ℕ → Executor → String → ℕ → World N F → Phase × World N F
  announce now x lane token w =
      let lock : LaneLock = record {
        lane_id = lane;
        gateway_id = x.gateway_id;
        task_id = x.task.task_id;
        fencing_token = token;
        acquired_at = now;
        expires_at = now + lane_ttl;
      } in
      (
        acquired lock,
        publish x (lane_acquired lane token)
            (record w { fencing = F.put w.fencing lane (some token) }),
      )

  -- One await of the acquisition that began at `now`.
  unfoldable pub advance : ℕ → Executor → String → Phase × World N F → Phase × World N F
  unfolding look next_token create_lock announce lock_data
  advance now x lane (begin, w) = (look now x (N.get w.lanes lane), w)
  advance now x lane (expired, w) = (cleared, record w { lanes = N.delete w.lanes lane })
  advance now x lane (cleared, w) = (numbered (next_token (F.get w.fencing lane)), w)
  advance now x lane (numbered token, w) = create_lock now x lane token w
  advance now x lane (created token, w) = announce now x lane token w
  advance now x lane (acquired lock, w) = (acquired lock, w)
  advance now x lane (refused e, w) = (refused e, w)

  unfoldable pub advances : ℕ → ℕ → Executor → String → Phase × World N F → Phase × World N F
  advances zero now x lane p = p
  advances (suc n) now x lane p = advances n now x lane (advance now x lane p)

  -- No acquisition takes more than five awaits.
  abbrev pub awaits : ℕ
  awaits = 5

  unfoldable pub outcome : Phase × World N F → Result Raised LaneLock × World N F
  outcome (acquired lock, w) = (ok lock, w)
  outcome (refused e, w) = (err e, w)
  outcome (_, w) = (err lane_contested, w)

  unfoldable pub acquire_lane :
      ℕ → Executor → String → World N F → Result Raised LaneLock × World N F
  unfolding outcome advances
  acquire_lane now x lane w = elim (sanitize_nats_subject lane) [
    | err _ ↦ (err invalid_subject, w)
    | ok lane_id ↦ outcome (advances awaits now x lane_id (begin, w))
  ]
