-- ===== src/Plugins/Registry/Running.antt =====
-- The plugins of src/xyberos/plugins/registry.py that are started, in lists that are put together and
-- reversed.
use xyberos.Prelude.{
  String, ◌≡◌, Bool, true, false, not, List, [], ◌∷◌, ◌++◌, arith, refl, ap, ◌∙◌, map, ◌&&◌,
  if◌then◌else◌, string_eq,
}
use xyberos.Plugins.Registry.{Entry, HookCall, is_started, reversed, names}

-- No plugin is started.
unfoldable pub none_started : List Entry → Bool
none_started [] = true
none_started (e ∷ es) = not (is_started e.state) && none_started es

-- The names of the plugins that are started
unfoldable pub running_names : List Entry → List String
running_names [] = []
running_names (e ∷ es) =
    let rest = running_names es in if is_started e.state then e.name ∷ rest else rest

pub none_started-append :
    (xs ys : List Entry) → none_started (xs ++ ys) ≡ (none_started xs && none_started ys)
unfolding none_started
none_started-append [] ys = refl
none_started-append (x ∷ xs) ys = ground (arith, none_started-append xs ys)

pub none_started-reversed : (xs : List Entry) → none_started (reversed xs) ≡ none_started xs
unfolding none_started reversed
none_started-reversed [] = refl
none_started-reversed (x ∷ xs) =
    ground (arith, none_started-append (reversed xs) (x ∷ []), none_started-reversed xs)

pub names-append : (xs ys : List Entry) → names (xs ++ ys) ≡ names xs ++ names ys
names-append [] ys = refl
names-append (x ∷ xs) ys = ap (λ l. x.name ∷ l) (names-append xs ys)

pub names-reversed : (xs : List Entry) → names (reversed xs) ≡ reversed (names xs)
unfolding reversed
names-reversed [] = refl
names-reversed (x ∷ xs) =
    names-append (reversed xs) (x ∷ []) ∙ ap (λ l. l ++ x.name ∷ []) (names-reversed xs)

pub running_names-append :
    (xs ys : List Entry) → running_names (xs ++ ys) ≡ running_names xs ++ running_names ys
unfolding running_names
running_names-append [] ys = refl
running_names-append (x ∷ xs) ys = ground (arith, running_names-append xs ys)

pub append_empty : {A : Type 0} (xs : List A) → xs ++ [] ≡ xs
append_empty [] = refl
append_empty (x ∷ xs) = ap (λ l. x ∷ l) (append_empty xs)

pub running_names-reversed :
    (xs : List Entry) → running_names (reversed xs) ≡ reversed (running_names xs)
unfolding running_names reversed
running_names-reversed [] = refl
running_names-reversed (x ∷ xs) =
    running_names-append (reversed xs) (x ∷ [])
    ∙ ap (λ l. l ++ running_names (x ∷ [])) (running_names-reversed xs)
    ∙ by_state (is_started x.state)
  where
    by_state :
        (was : Bool)
        → reversed (running_names xs) ++ (if was then x.name ∷ [] else [])
          ≡ reversed (if was then x.name ∷ running_names xs else running_names xs)
    by_state true = refl
    by_state false = append_empty (reversed (running_names xs))

pub starts-append :
    (xs : List String) (k : String)
    → map (λ n. HookCall.starts n) (xs ++ k ∷ [])
      ≡ map (λ n. HookCall.starts n) xs ++ HookCall.starts k ∷ []
starts-append [] k = refl
starts-append (x ∷ xs) k = ap (λ l. HookCall.starts x ∷ l) (starts-append xs k)

pub append_assoc :
    (xs : List String) (k : String) (ys : List String) → (xs ++ k ∷ []) ++ ys ≡ xs ++ k ∷ ys
append_assoc [] k ys = refl
append_assoc (x ∷ xs) k ys = ap (λ l. x ∷ l) (append_assoc xs k ys)
