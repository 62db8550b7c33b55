-- ===== src/Lanes/Acquire/Steps.antt =====
-- memu/lane_lock.py: the awaits of `_acquire_lane`, one after the other.
use fumemory.Base.{
  ℕ, zero, suc, ◌+◌, ◌<◌, ltb, String, eq_refl, ◌≡◌, refl, false, ◌&&◌, Option, none, some,
  Option-cases, Bool-cases, Result, ok, err, arith, ◌⊎◌, inl, inr,
}
use fumemory.Nats.KeyValue.{KeyValue, Entry}
use fumemory.Nats.Values.{value_of}
use fumemory.Lanes.Model.{
  lane_ttl, Payload, LaneValue, blank, garbled, payload, LaneLock, Raised, bad_json,
  duplicate_claim, lane_contested, lane_acquired, World, Executor, is_text, publish,
}
use fumemory.Lanes.Acquire.{
  Phase, begin, cleared, expired, acquired, refused, judge, look, next_token, create_lock,
  lock_data, advance, advances, outcome,
}

-- The token that a lane is given next.
abbrev pub token_after : Option (Option ℕ) → ℕ
token_after (some (some n)) = n + 1
token_after _ = 1

-- May a lane with this payload be taken over at `now`?
abbrev pub IsReclaimable : ℕ → Executor → Payload → Type 0
IsReclaimable now x p =
    ((is_text p.gateway_id x.gateway_id && is_text p.task_id x.task.task_id) ≡ false)
    × ((p.acquired_at ≡ none) ⊎ ((t : ℕ) × (p.acquired_at ≡ some t) × (t + lane_ttl < now)))

judge-cases :
    (now : ℕ) (x : Executor) (p : Payload)
    → ((judge now x p ≡ expired) × IsReclaimable now x p)
      ⊎ ((e : Raised) × (judge now x p ≡ refused e))
unfolding judge
judge-cases now x p =
    elim (Bool-cases (is_text p.gateway_id x.gateway_id && is_text p.task_id x.task.task_id)) [
      | inl mine ↦ inr (duplicate_claim, ground arith)
      | inr foreign ↦ elim (Option-cases p.acquired_at) [
        | inl e ↦ inl (ground arith, (foreign, inl e))
        | inr (t, e) ↦ elim (Bool-cases (ltb (t + lane_ttl) now)) [
          | inl stale ↦ inl (ground arith, (foreign, inr (t, e, ground arith)))
          | inr live ↦ inr (lane_contested, ground arith)
        ]
      ]
    ]

-- The first await: the lane is absent or blank; or it may be taken over; or the attempt is over.
abbrev Looked : ℕ → Executor → Option (Entry LaneValue) → Phase → Type 0
Looked now x o p =
    ((p ≡ cleared) × ((o ≡ none) ⊎ (value_of o ≡ some blank)))
    ⊎ ((p ≡ expired) × ((q : Payload) × (value_of o ≡ some (payload q)) × IsReclaimable now x q))
    ⊎ ((e : Raised) × (p ≡ refused e))

look-Looked :
    (now : ℕ) (x : Executor) (o : Option (Entry LaneValue)) → Looked now x o (look now x o)
unfolding look
look-Looked now x none = inl (refl, inl refl)
look-Looked now x (some e) = by_value e.value refl
  where
    by_value : (v : LaneValue) → e.value ≡ v → Looked now x (some e) (look now x (some e))
    by_value blank h = inl (ground arith, inr (ground arith))
    by_value garbled h = inr (inr (bad_json, ground arith))
    by_value (payload q) h = elim (judge-cases now x q) [
      | inl (stale, may) ↦ inr (inl (rw h stale, (q, ground arith, may)))
      | inr (r, over) ↦ inr (inr (r, rw h over))
    ]

next_token-after : (o : Option (Entry (Option ℕ))) → next_token o ≡ token_after (value_of o)
unfolding next_token
next_token-after none = refl
next_token-after (some e) = ground arith

abbrev pub claimed : ℕ → Executor → String → ℕ → LaneLock
claimed now x lane token = record {
  lane_id = lane;
  gateway_id = x.gateway_id;
  task_id = x.task.task_id;
  fencing_token = token;
  acquired_at = now;
  expires_at = now + lane_ttl;
}

module _ {N : KeyValue LaneValue} {F : KeyValue (Option ℕ)} (now : ℕ) (x : Executor) where
  -- The rest of an acquisition, once the lane was found free or was cleared.
  take : ℕ → String → World N F → Result Raised LaneLock × World N F
  take n lane w = outcome N F (advances N F (suc (suc (suc n))) now x lane (cleared, w))

  -- An acquisition that is over stays as it is.
  advances_acquired :
      (n : ℕ) (lane : String) (lock : LaneLock) (w : World N F)
      → advances N F n now x lane (acquired lock, w) ≡ (acquired lock, w)
  unfolding advances advance
  advances_acquired zero lane lock w = refl
  advances_acquired (suc n) lane lock w = advances_acquired n lane lock w

  advances_refused :
      (n : ℕ) (lane : String) (e : Raised) (w : World N F)
      → advances N F n now x lane (refused e, w) ≡ (refused e, w)
  unfolding advances advance
  advances_refused zero lane e w = refl
  advances_refused (suc n) lane e w = advances_refused n lane e w

  take_free :
      (n : ℕ) (lane : String) (w : World N F)
      → N.get w.lanes lane ≡ none
      → let token = token_after (value_of (F.get w.fencing lane)) in
        take n lane w ≡ (
          ok (claimed now x lane token),
          publish x (lane_acquired lane token) (record w {
            lanes = N.put w.lanes lane (payload (lock_data now x token));
            fencing = F.put w.fencing lane (some token);
          }),
        )
  unfolding take advances advance outcome
  take_free n lane w free = rw (← next_token-after (F.get w.fencing lane)) (
      rw (made (next_token (F.get w.fencing lane)), create_lock)
        (rw (advances_acquired n lane _ _)))
    where
      made :
          (token : ℕ)
          → N.create w.lanes lane (payload (lock_data now x token))
            ≡ some (N.put w.lanes lane (payload (lock_data now x token)))
      made token = rw (N.create_lem w.lanes lane (payload (lock_data now x token)), free)

  take_blank :
      (n : ℕ) (lane : String) (w : World N F)
      → value_of (N.get w.lanes lane) ≡ some blank
      → take n lane w ≡ (err lane_contested, w)
  unfolding take advances advance outcome
  take_blank n lane w h = elim (Option-cases (N.get w.lanes lane)) [
    | inl e ↦ ground arith
    | inr (old, e) ↦
        rw (kept old e (next_token (F.get w.fencing lane)), create_lock)
          (rw (advances_refused n lane _ _))
  ]
    where
      kept :
          (old : Entry LaneValue)
          → N.get w.lanes lane ≡ some old
          → (token : ℕ) → N.create w.lanes lane (payload (lock_data now x token)) ≡ none
      kept old e token = rw (N.create_lem w.lanes lane (payload (lock_data now x token)), e)

  -- The world in which the lane is taken under the token, from the lanes `b`.
  abbrev pub taken_from : String → World N F → N.Bucket → World N F
  taken_from lane w b =
      let token = token_after (value_of (F.get w.fencing lane)) in
      publish x (lane_acquired lane token) (record w {
        lanes = N.put b lane (payload (lock_data now x token));
        fencing = F.put w.fencing lane (some token);
      })

  abbrev pub Attempt : String → World N F → Result Raised LaneLock × World N F → Type 0
  Attempt lane w out =
      ((e : Raised) × (out ≡ (err e, w)))
      ⊎ ((N.get w.lanes lane ≡ none)
          × (out ≡ (
            ok (claimed now x lane (token_after (value_of (F.get w.fencing lane)))),
            taken_from lane w w.lanes,
          )))
      ⊎ ((q : Payload) × (value_of (N.get w.lanes lane) ≡ some (payload q))
          × IsReclaimable now x q
          × (out ≡ (
            ok (claimed now x lane (token_after (value_of (F.get w.fencing lane)))),
            taken_from lane w (N.delete w.lanes lane),
          )))

  unfoldable pub five_awaits : String → World N F → Result Raised LaneLock × World N F
  five_awaits lane w = outcome N F (advances N F 5 now x lane (begin, w))

  pub five_awaits-Attempt : (lane : String) (w : World N F) → Attempt lane w (five_awaits lane w)
  unfolding five_awaits advances advance take outcome
  five_awaits-Attempt lane w = elim (look-Looked now x (N.get w.lanes lane)) [
    | inl (go, inl free) ↦ inr (inl (free, rw go (take_free 1 lane w free)))
    | inl (go, inr was_blank) ↦ inl (lane_contested, rw go (take_blank 1 lane w was_blank))
    | inr (inl (go, (q, e, may))) ↦ inr (
        inr (
          q,
          e,
          may,
          rw go (take_free 0 lane (record w { lanes = N.delete w.lanes lane }) cleared_lane),
        ))
    | inr (inr (e, over)) ↦ inl (e, rw over)
  ]
    where
      cleared_lane : N.get (N.delete w.lanes lane) lane ≡ none
      cleared_lane = rw (N.get-delete w.lanes lane lane, eq_refl lane)
