-- ===== src/Http/Examples.antt =====
-- A store of two sessions that is full.
use xyberos.Prelude.{
  ℕ, ◌≤◌, String, ◌≡◌, [], ◌∷◌, leb, none, some, length, inr, refl, if◌then◌else◌, arith, string_eq,
}
use xyberos.Http.Sessions.{SessionEntry, Sessions, load_session, save_session}
use xyberos.Table.{find}
use xyberos.Http.Sessions.Stored.{load_session-save_session, find-save_session}

abbrev entry : String → ℕ → SessionEntry String
entry contents expires_at = record { contents = contents; expires_at = expires_at }

abbrev full : Sessions String
full = ("a", entry "ada" 5) ∷ ("b", entry "bob" 30) ∷ []

load_session-save_session_example :
    ((load_session "c" 20 (save_session 2 "c" "cy" 10 10 11 full)).0
      ≡ (if leb 21 20 then none else some "cy"))
    × (length (save_session 2 "c" "cy" 10 10 11 full) ≤ 2)
load_session-save_session_example =
    load_session-save_session 2 "c" "cy" 10 10 11 20 full (omega arith) (omega arith)

find-save_session_example : find "a" (save_session 2 "b" "bo" 10 3 4 full) ≡ some (entry "ada" 5)
unfolding find
find-save_session_example =
    find-save_session 2 "b" "bo" 10 3 4 full "a" (entry "ada" 5)
      (inr (entry "bob" 30, refl, omega arith)) (λ e. ground (arith, e, string_eq.beq_iff "a" "b"))
      refl (omega arith)
