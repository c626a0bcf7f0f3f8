-- ===== src/Ports/Auth/Isolation.antt =====
-- What a context holds of an identity (WithIdentity and IdentityFromContext of ports/auth/auth.go) is out
-- of reach of every alias.
use go_ddd_core.Prelude.{
  ℕ, ◌<◌, ◌≤◌, true, ◌≡◌, ◌⊎◌, inl, inr, refl, sym, subst, ◌∙◌, Bool, List, [], ◌∷◌, All,
}
use go_ddd_core.Ports.Auth.{
  Identity, Heap, AuthContext, clone, with_identity, identity_from_context,
}
use go_ddd_core.Ports.Auth.Cloning.{
  IsThrough, Write, clone-Misses-All, clone_after, clone_before, contents, contents-clone,
  contents-cloned_kept, contents-writes, next-writes, target, writes,
}

-- The write goes through a reference from before WithIdentity or after it, or through one of the identity
-- that an earlier reader was given.
abbrev pub IsForeign : ℕ → ℕ → Identity → Write → Type 0
IsForeign before after given w = (target w < before) ⊎ (after ≤ target w) ⊎ IsThrough given w

foreign_outside :
    (id given : Identity) (h : Heap) (ws : List Write)
    → ((w : Write) → IsThrough given w → (clone id h).1.next ≤ target w)
    → All (IsForeign h.next (clone id h).1.next given) ws
    → All (λ w. (target w < h.next) ⊎ ((clone id h).1.next ≤ target w)) ws
foreign_outside id given h [] after a = tt
foreign_outside id given h (w ∷ ws) after (inl l, a) =
    (inl l, foreign_outside id given h ws after a)
foreign_outside id given h (w ∷ ws) after (inr (inl u), a) =
    (inr u, foreign_outside id given h ws after a)
foreign_outside id given h (w ∷ ws) after (inr (inr t), a) =
    (inr (after w t), foreign_outside id given h ws after a)

-- What the first reader is given, after some writes, and the heap then.
abbrev pub first_read : AuthContext → Identity → Heap → List Write → (Identity × Bool) × Heap
first_read ctx id h ws =
    identity_from_context (with_identity ctx id h).0 (writes ws (with_identity ctx id h).1)

-- IdentityFromContext gives to two readers what WithIdentity was given: subject, tenant, roles and claims
-- are those at the time of WithIdentity, whatever has been written before the first reader and between
-- the two through references that the caller of WithIdentity had, through references that have been
-- made since, and, between the two, through the identity that the first reader was given.
pub identity_from_context-with_identity :
    (ctx : AuthContext) (id : Identity) (h : Heap) (ws us : List Write)
    → All (λ w. (target w < h.next) ⊎ ((with_identity ctx id h).1.next ≤ target w)) ws
    → All (IsForeign h.next (with_identity ctx id h).1.next (first_read ctx id h ws).0.0) us
    → (let ((given, ok), h₁) = first_read ctx id h ws in
        let ((found, again), h₂) =
          identity_from_context (with_identity ctx id h).0 (writes us h₁) in
        (ok ≡ true)
        × (contents given h₁ ≡ contents id h)
        × (again ≡ true)
        × (contents found h₂ ≡ contents id h))
unfolding with_identity identity_from_context
identity_from_context-with_identity ctx id h ws us a b =
    let c = (clone id h).0 in
    let g = writes ws (clone id h).1 in
    let g_next : g.next ≡ (clone id h).1.next = next-writes ws (clone id h).1 in
    let stored : contents c g ≡ contents id h =
      contents-writes c ws (clone id h).1 (clone-Misses-All id h ws a) ∙ contents-clone id h in
    let apart =
      foreign_outside id (clone c g).0 h us
        (λ w e. subst (λ n. n ≤ target w) g_next (clone_after c g w e)) b in
    let kept : contents c (clone c g).1 ≡ contents c g =
      contents-cloned_kept c c g (λ t e. subst (λ n. t < n) (sym g_next) (clone_before id h t e)) in
    (
      refl,
      contents-clone c g ∙ stored,
      refl,
      contents-clone c (writes us (clone c g).1)
          ∙ contents-writes c us (clone c g).1 (clone-Misses-All id h us apart)
          ∙ kept
          ∙ stored,
    )
