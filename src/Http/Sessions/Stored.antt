-- ===== src/Http/Sessions/Stored.antt =====
-- What a save of src/xyberos/http/sessions.py leaves: the saved session, the others, and the bound.
use xyberos.Prelude.{
  ℕ, ◌+◌, ◌≤◌, ◌<◌, String, ◌≡◌, ◌≢◌, ◌⊎◌, inl, inr, refl, true, none, some, [], ◌∷◌, leb, length,
  is_some, if◌then◌else◌, string_eq, arith,
}
use xyberos.Table.{find, upsert, find-upsert}
use xyberos.Http.Sessions.{
  SessionEntry, Sessions, load_session, evict_expired, make_room, save_session,
}

module _ {D : Type 0} where
  length-evict_expired :
      (now : ℕ) (sessions : Sessions D) → length (evict_expired now sessions) ≤ length sessions
  unfolding evict_expired
  length-evict_expired now [] = omega arith
  length-evict_expired now ((k, e) ∷ rest) = ground (arith, length-evict_expired now rest)

  -- A new session is stored in one place more, another in its own.
  length-upsert :
      (k : String) (e : SessionEntry D) (t : Sessions D)
      → length (upsert k e t) ≡ length t + (if is_some (find k t) then 0 else 1)
  unfolding upsert find
  length-upsert k e [] = ground arith
  length-upsert k e ((j, x) ∷ t) = ground (arith, length-upsert k e t)

  length-make_room :
      (max_sessions : ℕ) (session_id : String) (sessions : Sessions D)
      → 1 ≤ max_sessions
      → length sessions ≤ max_sessions
      → length (make_room max_sessions session_id sessions)
          + (if is_some (find session_id (make_room max_sessions session_id sessions))
              then 0
              else 1)
        ≤ max_sessions
  unfolding make_room find
  length-make_room max_sessions session_id [] some_room within = ground arith
  length-make_room max_sessions session_id (x ∷ rest) some_room within =
      ground (arith, within, some_room, length-make_room max_sessions session_id rest some_room)

  -- An entry that has not expired survives the eviction of the expired ones.
  find-evict_expired :
      (now : ℕ) (k : String) (e : SessionEntry D) (sessions : Sessions D)
      → find k sessions ≡ some e
      → now < e.expires_at
      → find k (evict_expired now sessions) ≡ some e
  unfolding evict_expired find
  find-evict_expired now k e [] found live = cc
  find-evict_expired now k e ((j, x) ∷ rest) found live =
      ground (arith, found, live, find-evict_expired now k e rest)

  -- Where there is room, or the session is there already, none is dropped.
  make_room-room :
      (max_sessions : ℕ) (session_id : String) (sessions : Sessions D)
      → (length sessions < max_sessions) ⊎ (is_some (find session_id sessions) ≡ true)
      → make_room max_sessions session_id sessions ≡ sessions
  unfolding make_room
  make_room-room max_sessions session_id [] room = refl
  make_room-room max_sessions session_id (x ∷ rest) room = ground (arith, room)

  still_room :
      (max_sessions : ℕ) (session_id : String) (now : ℕ) (sessions : Sessions D)
      → (length sessions < max_sessions)
        ⊎ ((old : SessionEntry D) × (find session_id sessions ≡ some old) × (now < old.expires_at))
      → (length (evict_expired now sessions) < max_sessions)
        ⊎ (is_some (find session_id (evict_expired now sessions)) ≡ true)
  still_room max_sessions session_id now sessions (inl less) =
      inl (omega (arith, less, length-evict_expired now sessions))
  still_room max_sessions session_id now sessions (inr (old, found, live)) =
      inr (rw (find-evict_expired now session_id old sessions found live) refl)

  -- A save drops no other session that has not expired, where the store was not full or had the
  -- saved session, not expired, already: the other session stays as it was.
  pub find-save_session :
      (max_sessions : ℕ) (session_id : String) (contents : D) (max_age now later : ℕ)
      (sessions : Sessions D) (other : String) (e : SessionEntry D)
      → (length sessions < max_sessions)
        ⊎ ((old : SessionEntry D) × (find session_id sessions ≡ some old) × (now < old.expires_at))
      → other ≢ session_id
      → find other sessions ≡ some e
      → now < e.expires_at
      → find other (save_session max_sessions session_id contents max_age now later sessions)
        ≡ some e
  unfolding save_session
  find-save_session max_sessions session_id contents max_age now later sessions other e room
        different found live =
      let entry : SessionEntry D = record { contents = contents; expires_at = later + max_age } in
      let kept = find-evict_expired now other e sessions found live in
      let all =
        make_room-room max_sessions session_id (evict_expired now sessions)
          (still_room max_sessions session_id now sessions room) in
      ground (
        arith,
        kept,
        all,
        different,
        find-upsert session_id other entry
            (make_room max_sessions session_id (evict_expired now sessions)),
        string_eq.beq_iff session_id other,
      )

  -- On the store that a save leaves, before any other call, the saved session is loaded with its
  -- data until it expires, and not from then on; and a store within its bound, which is at least 1,
  -- is within it after any save.
  pub load_session-save_session :
      (max_sessions : ℕ) (session_id : String) (contents : D) (max_age now later t : ℕ)
      (sessions : Sessions D)
      → 1 ≤ max_sessions
      → length sessions ≤ max_sessions
      → ((load_session session_id t
            (save_session max_sessions session_id contents max_age now later sessions)).0
          ≡ (if leb (later + max_age) t then none else some contents))
        × (length (save_session max_sessions session_id contents max_age now later sessions)
            ≤ max_sessions)
  unfolding load_session save_session
  load_session-save_session max_sessions session_id contents max_age now later t sessions some_room
        within =
      let kept = make_room max_sessions session_id (evict_expired now sessions) in
      let entry : SessionEntry D = record { contents = contents; expires_at = later + max_age } in
      (
        ground (
          arith,
          find-upsert session_id session_id entry kept,
          string_eq.beq_iff session_id session_id,
        ),
        omega (
          arith,
          length-upsert session_id entry kept,
          length-make_room max_sessions session_id (evict_expired now sessions) some_room
              (omega (arith, within, length-evict_expired now sessions)),
        ),
      )
