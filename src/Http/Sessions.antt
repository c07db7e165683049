-- ===== src/Http/Sessions.antt =====
-- `InMemorySessionStore` of src/xyberos/http/sessions.py. `D` is the type of a session's data; times are
-- readings of a clock that counts up.
pub mod Stored
use xyberos.Prelude.{
  ℕ, ◌+◌, String, Bool, true, false, not, ◌&&◌, Option, none, some, List, [], ◌∷◌, leb, length,
  is_some, if◌then◌else◌, string_eq,
}
use xyberos.Table.{Table, find, upsert, delete}

-- An entry of `_data`: the session's data, and when it expires
pub record SessionEntry (D : Type 0) : Type 0 where
  pub contents : D
  pub expires_at : ℕ

abbrev pub Sessions : Type 0 → Type 0
Sessions D = Table String (SessionEntry D)

module _ {D : Type 0} where
  abbrev entry_loaded : String → ℕ → Sessions D → Option (SessionEntry D) → Option D × Sessions D
  entry_loaded session_id now sessions none = (none, sessions)
  entry_loaded session_id now sessions (some entry) =
      if leb entry.expires_at now
      then (none, delete session_id sessions)
      else (some entry.contents, sessions)

  -- The answer, and the sessions that it leaves
  unfoldable pub load_session : String → ℕ → Sessions D → Option D × Sessions D
  load_session session_id now sessions =
      entry_loaded session_id now sessions (find session_id sessions)

  -- `_evict_expired`
  unfoldable pub evict_expired : ℕ → Sessions D → Sessions D
  evict_expired now [] = []
  evict_expired now ((k, entry) ∷ rest) =
      let live = evict_expired now rest in
      if leb entry.expires_at now then live else (k, entry) ∷ live

  -- The loop of `save`: the first key is dropped while the ceiling is reached and the session is new.
  unfoldable pub make_room : ℕ → String → Sessions D → Sessions D
  make_room max_sessions session_id [] = []
  make_room max_sessions session_id (oldest ∷ rest) =
      let further = make_room max_sessions session_id rest in
      if leb max_sessions (length (oldest ∷ rest))
        && not (is_some (find session_id (oldest ∷ rest)))
      then further
      else oldest ∷ rest

  -- `save`, which reads the clock twice
  unfoldable pub save_session : ℕ → String → D → ℕ → ℕ → ℕ → Sessions D → Sessions D
  unfolding evict_expired make_room
  save_session max_sessions session_id contents max_age now later sessions =
      upsert session_id (record { contents = contents; expires_at = later + max_age })
        (make_room max_sessions session_id (evict_expired now sessions))

  unfoldable pub delete_session : String → Sessions D → Sessions D
  delete_session session_id sessions = delete session_id sessions
