-- ===== src/Plugins/Registry/Order.antt =====
-- Plugins stand in the order of their requirements.
use xyberos.Prelude.{
  String, ◌≡◌, Bool, true, false, List, [], ◌∷◌, ◌++◌, arith, refl, string_eq, not, if◌then◌else◌,
}
use xyberos.Execution.Models.{contains}
use xyberos.Plugins.Registry.{
  Entry, Ending, add, added, refused, names, all_registered, Refusal, PluginState, registered_as,
}

-- Each plugin stands once, after every plugin that it requires.
pub data IsInOrder : List Entry → Type 0 where
  no_plugins : IsInOrder []
  then_plugin :
      (before : List Entry) (e : Entry) (after : List Entry)
      → IsInOrder before
      → contains e.name (names before) ≡ false
      → ((required : String)
          → contains required e.requires ≡ true
          → contains required (names before) ≡ true)
      → after ≡ before ++ e ∷ []
      → IsInOrder after

all_registered-contains :
    (requires known : List String) (required : String)
    → all_registered requires known ≡ true
    → contains required requires ≡ true
    → contains required known ≡ true
unfolding all_registered
all_registered-contains [] known required h m = cc
all_registered-contains (r ∷ rest) known required h m =
    ground (arith, h, m, string_eq.beq_iff r required, all_registered-contains rest known required)

accepted-IsInOrder :
    (e : Entry) (hook : Ending) (entries after : List Entry) (taken complete : Bool)
    → IsInOrder entries
    → contains e.name (names entries) ≡ taken
    → all_registered e.requires (names entries) ≡ complete
    → (if taken
        then refused Refusal.taken_name
        else if not complete
        then refused Refusal.missing_requirement
        else registered_as hook entries e)
      ≡ added after
    → IsInOrder after
accepted-IsInOrder e hook entries after true complete ordered t c h = cc
accepted-IsInOrder e hook entries after false false ordered t c h = cc
accepted-IsInOrder e Ending.raises entries after false true ordered t c h = cc
accepted-IsInOrder e Ending.aborts entries after false true ordered t c h = cc
accepted-IsInOrder e Ending.returns entries after false true ordered t c h =
    then_plugin entries e after ordered t
      (λ required m. all_registered-contains e.requires (names entries) required c m)
      (ground (arith, h))

-- `add` keeps the order: a plugin that it accepts has a new name, and its requirements stand before
-- it, so that plugins cannot require each other in a circle.
pub add-IsInOrder :
    (name : String) (requires : List String) (hook : Ending) (entries after : List Entry)
    → IsInOrder entries
    → add name requires hook entries ≡ added after
    → IsInOrder after
unfolding add
add-IsInOrder name requires hook entries after ordered h =
    accepted-IsInOrder (record { name = name; requires = requires; state = PluginState.registered })
      hook entries after (contains name (names entries)) (all_registered requires (names entries))
      ordered refl refl h
