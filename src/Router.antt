-- ===== src/Router.antt =====
-- The request router of src/core/router.h: a trie over the bytes of a path (`path_set`), and the
-- router that falls back to a default handler. A path is its list of bytes. A `node_type[256]` is
-- a function from bytes to nodes; the type of handlers is `F`, and `empty` is the value that
-- `func_type`'s default constructor gives a node of a new array.
pub mod Spec
pub mod Entries
pub mod Find
pub mod Routes
mod Tests
use petrel.Prelude.{ℕ, Bool, true, false, List, [], ◌∷◌, Option, none, some, ◌==◌, if◌then◌else◌}

-- `path_node`: `term`, `func` and the owned array `next`, which may be null.
mutual
  pub data Node (F : Type 0) : Type 0 where
    node : Bool → F → Next F → Node F

  pub data Next (F : Type 0) : Type 0 where
    null : Next F
    block : (ℕ → Node F) → Next F

pub data Error : Type 0 where
  insert_failed find_failed : Error

pub data Result (A : Type 0) : Type 0 where
  ok : A → Result A
  err : Error → Result A

module _ {F : Type 0} where
  abbrev pub term : Node F → Bool
  term (node t f n) = t

  abbrev pub func : Node F → F
  func (node t f n) = f

  abbrev pub next : Node F → Next F
  next (node t f n) = n

  -- A write to the entry `c` of an array.
  abbrev pub update : (ℕ → Node F) → ℕ → Node F → ℕ → Node F
  update t c n d = if c == d then n else t d

  -- `new node_type[256]`
  abbrev pub new_block : F → ℕ → Node F
  new_block empty c = node false empty null

  -- `if (nullptr == node.next) node.next = new node_type[256]; next = node.next;`
  unfoldable pub children : F → Next F → ℕ → Node F
  children empty null = new_block empty
  children empty (block t) = t

  -- The loop of `path_set::insert` at the byte `c`, with the bytes after it.
  unfoldable pub insert_from : F → (ℕ → Node F) → ℕ → List ℕ → F → ℕ → Node F
  insert_from empty t c [] f = update t c (node true f (next (t c)))
  insert_from empty t c (d ∷ r) f = update t c (
      node (term (t c)) (func (t c))
        (block (insert_from empty (children empty (next (t c))) d r f)))

  -- `path_set::insert`: the set after it, or the exception.
  unfoldable pub insert : F → (ℕ → Node F) → List ℕ → F → Result (ℕ → Node F)
  insert empty t [] f = err insert_failed
  insert empty t (c ∷ r) f = ok (insert_from empty t c r f)

  -- The loop of `path_set::find`; the last argument is the pointer `found`.
  unfoldable pub find_from : (ℕ → Node F) → List ℕ → Option (Node F) → Option (Node F)
  find_from t [] found = found
  find_from t (c ∷ r) found =
      let found' : Option (Node F) = if term (t c) then some (t c) else found in
      elim (next (t c)) [ null ↦ found' | block t' ↦ find_from t' r found' ]

  -- `if (nullptr != found) return found->func; throw …`
  abbrev pub found_func : Option (Node F) → Result F
  found_func (some n) = ok (func n)
  found_func none = err find_failed

  unfoldable pub find : (ℕ → Node F) → List ℕ → Result F
  find t path = found_func (find_from t path none)

pub record Router (F : Type 0) : Type 0 where
  pub set : ℕ → Node F
  pub default_func : F

module _ {F : Type 0} (empty : F) where
  -- The constructor, with the 404 handler that it installs.
  unfoldable pub new_router : F → Router F
  new_router not_found = record { set = new_block empty; default_func = not_found }

  abbrev with_set : Router F → Result (ℕ → Node F) → Result (Router F)
  with_set r (ok t) = ok (record r { set = t })
  with_set r (err e) = err e

  unfoldable pub add_route : Router F → List ℕ → F → Result (Router F)
  unfolding insert
  add_route r path f = with_set r (insert empty r.set path f)

module _ {F : Type 0} where
  -- The `catch` clause of `find_route`.
  abbrev or_default : F → Result F → F
  or_default d (ok f) = f
  or_default d (err e) = d

  unfoldable pub find_route : Router F → List ℕ → F
  unfolding find
  find_route r path = or_default r.default_func (find r.set path)
