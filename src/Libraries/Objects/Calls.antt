-- ===== src/Libraries/Objects/Calls.antt =====
-- The objects of a library and the calls of their methods, from `lib_new` on.
use Prim.Native.String.{String}
use text.Mathlib.Text.{◌==◌ as str_eq}
use petrel.Prelude.{ℕ, ◌≡◌, refl, ap, ◌∙◌, List, [], ◌∷◌, ◌++◌, Option, none, some, if◌then◌else◌}
use petrel.Maps.{lookup, assign, lookup-assign}
use petrel.Libraries.Objects.{
  Value, light_userdata, table, Library, Context, set_methods, lib_new, Call, invoke, method,
}

-- The function that was added last under a name.
abbrev pub last_method : String → List (Option String × ℕ) → Option ℕ → Option ℕ
last_method name [] found = found
last_method name ((none, f) ∷ fs) found = last_method name fs found
last_method name ((some other, f) ∷ fs) found =
    last_method name fs (if str_eq other name then some f else found)

lookup-set_methods :
    (name : String) (fs : List (Option String × ℕ)) (fields : List (String × ℕ))
    → lookup name (set_methods fs fields) ≡ last_method name fs (lookup name fields)
unfolding set_methods
lookup-set_methods name [] fields = refl
lookup-set_methods name ((none, f) ∷ fs) fields = lookup-set_methods name fs fields
lookup-set_methods name ((some other, f) ∷ fs) fields =
    rw (lookup-set_methods name fs (assign other f fields), lookup-assign other name f fields)

-- The table at the top of a stack, and `obj:name(args)` on it: the field of that name and what the
-- wrapper of the method does with the table and the arguments.
abbrev pub top : List Value → Option Value
top [] = none
top (v ∷ []) = some v
top (v ∷ u ∷ vs) = top (u ∷ vs)

abbrev pub call_field : String → Option Value → List Value → Option (ℕ × Call)
call_field name (some (table this fields)) args = elim (lookup name fields) [
  | none ↦ none
  | some f ↦ some (f, method (table this fields ∷ args))
]
call_field name v args = none

abbrev pub with_object : Option ℕ → ℕ → List Value → Option (ℕ × Call)
with_object none obj args = none
with_object (some f) obj args = some (f, invoke obj args)

top-append : (vs : List Value) (v u : Value) → top (vs ++ v ∷ u ∷ []) ≡ some u
top-append [] v u = refl
top-append (w ∷ []) v u = refl
top-append (w ∷ x ∷ vs) v u = top-append (x ∷ vs) v u

call_field-method :
    (name : String) (obj : ℕ) (fs : List (Option String × ℕ)) (args : List Value)
    → call_field name (some (table (light_userdata (some obj)) (set_methods fs []))) args
      ≡ with_object (last_method name fs none) obj args
unfolding method lookup
call_field-method name obj fs args =
    by_found (lookup name (set_methods fs [])) ∙ ap (λ o. with_object o obj args) found
  where
    found : lookup name (set_methods fs []) ≡ last_method name fs none
    found = lookup-set_methods name fs []

    by_found :
        (o : Option ℕ)
        → (elim o [
          | none ↦ none
          | some f ↦ some (f, method (table (light_userdata (some obj)) (set_methods fs []) ∷ args))
        ])
          ≡ with_object o obj args
    by_found none = refl
    by_found (some f) = refl

-- On a stack that holds the library's table, `lib_new` adds one more object to those that are deleted
-- with the Lua state, and a call of a method on the table at the top of the stack, its result, runs
-- the last method that was added under the name on that object, with the arguments of the call.
pub lib_new-call_field :
    (lib : Library) (funcs : Value) (vs args : List Value) (ctx : Context) (name : String)
    → ((lib_new lib (funcs ∷ vs) ctx).0.objects ≡ ctx.objects ++ ctx.created ∷ [])
      × (call_field name (top (lib_new lib (funcs ∷ vs) ctx).1) args
          ≡ with_object (last_method name lib.methods none) ctx.created args)
unfolding lib_new method
lib_new-call_field lib funcs [] args ctx name =
    (refl, call_field-method name ctx.created lib.methods args)
lib_new-call_field lib funcs (v ∷ vs) args ctx name =
    let newtab = table (light_userdata (some ctx.created)) (set_methods lib.methods []) in
    (
      refl,
      ap (λ t. call_field name t args) (top-append vs (light_userdata (some ctx.created)) newtab)
          ∙ call_field-method name ctx.created lib.methods args,
    )
