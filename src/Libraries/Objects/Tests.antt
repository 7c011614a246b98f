-- ===== src/Libraries/Objects/Tests.antt =====
-- An object of a library with one method.
use petrel.Prelude.{◌≡◌, [], ◌∷◌, ◌++◌, none, some}
use petrel.Libraries.Objects.{plain, nil, Library, Context, lib_new}
use petrel.Libraries.Objects.Calls.{last_method, top, call_field, with_object, lib_new-call_field}

abbrev lib : Library
lib = record { functions = []; methods = (some "get", 7) ∷ (none, 8) ∷ (some "get", 9) ∷ [] }

abbrev ctx : Context
ctx = record { objects = 3 ∷ []; created = 4 }

lib_new-call_field_example :
    ((lib_new lib (nil ∷ plain 1 ∷ []) ctx).0.objects ≡ ctx.objects ++ ctx.created ∷ [])
    × (call_field "get" (top (lib_new lib (nil ∷ plain 1 ∷ []) ctx).1) (plain 5 ∷ [])
        ≡ with_object (last_method "get" lib.methods none) ctx.created (plain 5 ∷ []))
lib_new-call_field_example = lib_new-call_field lib nil (plain 1 ∷ []) (plain 5 ∷ []) ctx "get"
