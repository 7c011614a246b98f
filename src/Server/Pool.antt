-- ===== src/Server/Pool.antt =====
-- What becomes of the Lua state that a request uses.
use petrel.Prelude.{
  ℕ, ◌+◌, ◌≡◌, sym, ◌∙◌, ap, Bool, true, false, List, [], ◌∷◌, some, if◌then◌else◌, arith, count,
  Option-cases, inl, inr,
}
use mathlib.Core.Option.{some-injective}
use petrel.LuaStates.{Manager, Creation, ok, set_objects, get_state, free_state, take_state}
use petrel.LuaStates.Ownership.Caches.{
  caches, listed, take_state-Takes, free_state-Gives, get_state-taken,
}
use petrel.Server.{
  HeaderMap, Request, Call, not_function, call_fails, not_table, bad_status, bad_headers,
  bad_content, responds, answer, call_in, add_headers, send_response, handle_request,
}

abbrev pub gives_response : Call → Bool
gives_response (responds status hs content) = true
gives_response _ = false

module _ (M : HeaderMap) where
  open M use {Headers}

  answer-caches :
      (thread l : ℕ) (call : Call) (m : Manager) (req : Request Headers) (a : ℕ)
      (o : Manager × Request Headers × Bool)
      → answer M thread l call m req ≡ some o
      → caches a o.0 ≡ (if gives_response call then caches a m + count a (l ∷ []) else caches a m)
  answer-caches thread l not_function m req a o e =
      ap (λ p. caches a p.0) (sym (some-injective _ _ e))
  answer-caches thread l call_fails m req a o e =
      ap (λ p. caches a p.0) (sym (some-injective _ _ e))
  answer-caches thread l not_table m req a o e = ap (λ p. caches a p.0) (sym (some-injective _ _ e))
  answer-caches thread l bad_status m req a o e =
      ap (λ p. caches a p.0) (sym (some-injective _ _ e))
  answer-caches thread l bad_headers m req a o e =
      ap (λ p. caches a p.0) (sym (some-injective _ _ e))
  answer-caches thread l (bad_content hs) m req a o e = elim (Option-cases (add_headers M hs req)) [
    | inl h ↦ absurd (ground arith)
    | inr (q, h) ↦
        let f : some (m, q, true) ≡ some o = rw (h, answer) at e in
        ap (λ p. caches a p.0) (sym (some-injective _ _ f))
  ]
  answer-caches thread l (responds status hs content) m req a o e =
      elim (Option-cases (add_headers M hs req)) [
        | inl h ↦ absurd (ground arith)
        | inr (q, h) ↦
            let f : some (free_state thread l m, send_response M status content q, false) ≡ some o =
              rw (h, answer) at e in
            ap (λ p. caches a p.0) (sym (some-injective _ _ f))
            ∙ (free_state-Gives thread l m).moved a
      ]

  call_in-caches :
      (thread l : ℕ) (objs : List ℕ) (pushes : Bool) (call : Call) (m : Manager)
      (req : Request Headers) (a : ℕ) (o : Manager × Request Headers × Bool)
      → call_in M thread objs pushes call req (m, ok l) ≡ some o
      → caches a o.0 ≡ (if gives_response call then caches a m + count a (l ∷ []) else caches a m)
  call_in-caches thread l objs pushes not_function m req a o e =
      ap (λ p. caches a p.0) (sym (some-injective _ _ e))
  call_in-caches thread l objs false call m req a o e = absurd (ground arith)
  call_in-caches thread l objs true call m req a o e =
      answer-caches thread l call (record m { objects = set_objects m.objects l objs }) req a o e

  -- If a request takes the state `l` out of a cache of a pool that is not in dev mode, and has a
  -- defined result, then the caches of the pool have the states that they had before if the Lua
  -- function gives a response; otherwise they have lost `l`, and nothing else.
  pub handle_request-caches :
      (thread : ℕ) (creation : Creation) (reloads : Bool) (objs : List ℕ) (pushes : Bool)
      (call : Call) (m : Manager) (req : Request Headers) (l a : ℕ)
      (o : Manager × Request Headers × Bool)
      → m.dev_mode ≡ false
      → (take_state thread m).1 ≡ some l
      → handle_request M thread creation reloads objs pushes call m req ≡ some o
      → caches a o.0 + (if gives_response call then 0 else count a (l ∷ [])) ≡ caches a m
  unfolding handle_request
  handle_request-caches thread creation reloads objs pushes call m req l a o d t h =
      let k = take_state-Takes thread m in
      let n = (take_state thread m).0 in
      let e : get_state thread creation reloads m ≡ (n, ok l) =
        get_state-taken thread creation reloads m l d t in
      ground (
        arith,
        call_in-caches thread l objs pushes call n req a o (rw e at h),
        k.moved a,
        ap (λ o. count a (listed o)) t,
      )
