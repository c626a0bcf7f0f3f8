-- ===== src/Ports/Auth/Cloning.antt =====
-- A clone of an identity (Clone of ports/auth/auth.go) has references of its own.
use go_ddd_core.Prelude.{
  ℕ, zero, suc, ◌<◌, ◌≤◌, String, ◌≡◌, ◌≢◌, ◌⊎◌, inl, inr, refl, ap, ◌∙◌, Option, none, some, List,
  [], ◌∷◌, All, arith,
}
use go_ddd_core.Prelude.Dict.{Dict, insert}
use go_ddd_core.Ports.Auth.{Identity, Heap, put_cell, clone_roles, clone_claims, clone}

-- What is seen of an identity.
abbrev pub read_roles : Option ℕ → Heap → Option (List String)
read_roles none h = none
read_roles (some r) h = some (h.role_cells r)

abbrev pub read_claims : Option ℕ → Heap → Option (Dict String)
read_claims none h = none
read_claims (some r) h = some (h.claim_cells r)

abbrev pub contents :
    Identity → Heap → String × String × Option (List String) × Option (Dict String)
contents id h = (id.subject, id.tenant_id, read_roles id.roles h, read_claims id.claims h)

-- A write through an alias, `id.Roles[i] = role` or `id.Claims[k] = v`.
pub data Write : Type 0 where
  set_role : ℕ → ℕ → String → Write
  set_claim : ℕ → String → String → Write

abbrev pub target : Write → ℕ
target (set_role r i role) = r
target (set_claim r k v) = r

abbrev set_nth : ℕ → String → List String → List String
set_nth i s [] = []
set_nth zero s (t ∷ ts) = s ∷ ts
set_nth (suc i) s (t ∷ ts) = t ∷ set_nth i s ts

abbrev pub write_one : Write → Heap → Heap
write_one (set_role r i role) h = record h {
  role_cells = put_cell r (set_nth i role (h.role_cells r)) h.role_cells;
}
write_one (set_claim r k v) h = record h {
  claim_cells = put_cell r (insert k v (h.claim_cells r)) h.claim_cells;
}

abbrev pub writes : List Write → Heap → Heap
writes [] h = h
writes (w ∷ ws) h = writes ws (write_one w h)

module _ {A : Type 0} where
  put_cell-other : (r j : ℕ) (a : A) (cells : ℕ → A) → j ≢ r → put_cell r a cells j ≡ cells j
  put_cell-other r j a cells n = ground (arith, n)

  put_cell-same : (r : ℕ) (a : A) (cells : ℕ → A) → put_cell r a cells r ≡ a
  put_cell-same r a cells = ground arith

write_one_roles :
    (w : Write) (r : Option ℕ) (h : Heap)
    → (r ≡ some (target w) → ⊥)
    → read_roles r (write_one w h) ≡ read_roles r h
write_one_roles w none h n = refl
write_one_roles (set_role t i role) (some r) h n =
    ap some (put_cell-other t r _ h.role_cells (λ e. n (ap some e)))
write_one_roles (set_claim t k v) (some r) h n = refl

write_one_claims :
    (w : Write) (r : Option ℕ) (h : Heap)
    → (r ≡ some (target w) → ⊥)
    → read_claims r (write_one w h) ≡ read_claims r h
write_one_claims w none h n = refl
write_one_claims (set_role t i role) (some r) h n = refl
write_one_claims (set_claim t k v) (some r) h n =
    ap some (put_cell-other t r _ h.claim_cells (λ e. n (ap some e)))

-- Neither the roles nor the claims of the identity are the target.
abbrev Misses : Identity → Write → Type 0
Misses id w = (id.roles ≡ some (target w) → ⊥) × (id.claims ≡ some (target w) → ⊥)

pub contents-writes :
    (id : Identity) (ws : List Write) (h : Heap)
    → All (Misses id) ws
    → contents id (writes ws h) ≡ contents id h
contents-writes id [] h a = refl
contents-writes id (w ∷ ws) h ((n, m), a) =
    contents-writes id ws (write_one w h) a
    ∙ rw (contents, write_one_roles w id.roles h n, write_one_claims w id.claims h m) refl

contents_cloned :
    (s t : String) (rs cs : Option ℕ) (h : Heap)
    → contents
        (record {
          subject = s;
          tenant_id = t;
          roles = (clone_roles rs h).0;
          claims = (clone_claims cs (clone_roles rs h).1).0;
        })
        (clone_claims cs (clone_roles rs h).1).1
      ≡ contents (record { subject = s; tenant_id = t; roles = rs; claims = cs }) h
contents_cloned s t none none h = refl
contents_cloned s t none (some c) h = rw (put_cell-same h.next (h.claim_cells c) h.claim_cells) refl
contents_cloned s t (some r) none h = rw (put_cell-same h.next (h.role_cells r) h.role_cells) refl
contents_cloned s t (some r) (some c) h =
    rw
      (
        put_cell-same h.next (h.role_cells r) h.role_cells,
        put_cell-same (suc h.next) (h.claim_cells c) h.claim_cells,
      )
      refl

abbrev cloned_next : Option ℕ → Option ℕ → Heap → ℕ
cloned_next rs cs h = (clone_claims cs (clone_roles rs h).1).1.next

differs_from :
    {t : ℕ} (low high r : ℕ) → low ≤ r → r < high → (t < low) ⊎ (high ≤ t) → some r ≡ some t → ⊥
differs_from low high r l u o e = ground arith

none_differs : {t : ℕ} → none ≡ some t → ⊥
none_differs e = cc e

cloned_misses :
    (rs cs : Option ℕ) (h : Heap) (t : ℕ)
    → (t < h.next) ⊎ (cloned_next rs cs h ≤ t)
    → ((clone_roles rs h).0 ≡ some t → ⊥) × ((clone_claims cs (clone_roles rs h).1).0 ≡ some t → ⊥)
cloned_misses none none h t o = (none_differs, none_differs)
cloned_misses none (some c) h t o =
    (none_differs, differs_from h.next (suc h.next) h.next (omega arith) (omega arith) o)
cloned_misses (some r) none h t o =
    (differs_from h.next (suc h.next) h.next (omega arith) (omega arith) o, none_differs)
cloned_misses (some r) (some c) h t o = (
  differs_from h.next (suc (suc h.next)) h.next (omega arith) (omega arith) o,
  differs_from h.next (suc (suc h.next)) (suc h.next) (omega arith) (omega arith) o,
)

pub contents-clone :
    (id : Identity) (h : Heap) → contents (clone id h).0 (clone id h).1 ≡ contents id h
unfolding clone
contents-clone id h = contents_cloned id.subject id.tenant_id id.roles id.claims h

-- The references of a clone are new.
clone-Misses :
    (id : Identity) (h : Heap) (w : Write)
    → (target w < h.next) ⊎ ((clone id h).1.next ≤ target w)
    → Misses (clone id h).0 w
unfolding clone
clone-Misses id h w o = cloned_misses id.roles id.claims h (target w) o

pub clone-Misses-All :
    (id : Identity) (h : Heap) (ws : List Write)
    → All (λ w. (target w < h.next) ⊎ ((clone id h).1.next ≤ target w)) ws
    → All (Misses (clone id h).0) ws
clone-Misses-All id h [] a = tt
clone-Misses-All id h (w ∷ ws) (o, a) = (clone-Misses id h w o, clone-Misses-All id h ws a)

pub next-writes : (ws : List Write) (h : Heap) → (writes ws h).next ≡ h.next
next-writes [] h = refl
next-writes (set_role r i role ∷ ws) h = next-writes ws (write_one (set_role r i role) h)
next-writes (set_claim r k v ∷ ws) h = next-writes ws (write_one (set_claim r k v) h)

-- The write goes through a reference of the identity.
abbrev pub IsThrough : Identity → Write → Type 0
IsThrough id w = (id.roles ≡ some (target w)) ⊎ (id.claims ≡ some (target w))

cloned_after :
    (rs cs : Option ℕ) (h : Heap) (t : ℕ)
    → ((clone_roles rs h).0 ≡ some t) ⊎ ((clone_claims cs (clone_roles rs h).1).0 ≡ some t)
    → h.next ≤ t
cloned_after none none h t (inl e) = cc
cloned_after none none h t (inr e) = cc
cloned_after none (some c) h t (inl e) = cc
cloned_after none (some c) h t (inr e) = ground arith
cloned_after (some r) none h t (inl e) = ground arith
cloned_after (some r) none h t (inr e) = cc
cloned_after (some r) (some c) h t (inl e) = ground arith
cloned_after (some r) (some c) h t (inr e) = ground arith

pub clone_after :
    (id : Identity) (h : Heap) (w : Write) → IsThrough (clone id h).0 w → h.next ≤ target w
unfolding clone
clone_after id h w e = cloned_after id.roles id.claims h (target w) e

cloned_before :
    (rs cs : Option ℕ) (h : Heap) (t : ℕ)
    → ((clone_roles rs h).0 ≡ some t) ⊎ ((clone_claims cs (clone_roles rs h).1).0 ≡ some t)
    → t < cloned_next rs cs h
cloned_before none none h t (inl e) = cc
cloned_before none none h t (inr e) = cc
cloned_before none (some c) h t (inl e) = cc
cloned_before none (some c) h t (inr e) = ground arith
cloned_before (some r) none h t (inl e) = ground arith
cloned_before (some r) none h t (inr e) = cc
cloned_before (some r) (some c) h t (inl e) = ground arith
cloned_before (some r) (some c) h t (inr e) = ground arith

cloned_roles_kept :
    (q rs cs : Option ℕ) (h : Heap)
    → ((t : ℕ) → q ≡ some t → t < h.next)
    → read_roles q (clone_claims cs (clone_roles rs h).1).1 ≡ read_roles q h
cloned_roles_kept none rs cs h old = refl
cloned_roles_kept (some q) none none h old = refl
cloned_roles_kept (some q) none (some c) h old = refl
cloned_roles_kept (some q) (some r) none h old =
    let below : q < h.next = old q refl in
    ap some (put_cell-other h.next q (h.role_cells r) h.role_cells (λ e. omega (arith, below, e)))
cloned_roles_kept (some q) (some r) (some c) h old =
    let below : q < h.next = old q refl in
    ap some (put_cell-other h.next q (h.role_cells r) h.role_cells (λ e. omega (arith, below, e)))

cloned_claims_kept :
    (q rs cs : Option ℕ) (h : Heap)
    → ((t : ℕ) → q ≡ some t → t < h.next)
    → read_claims q (clone_claims cs (clone_roles rs h).1).1 ≡ read_claims q h
cloned_claims_kept none rs cs h old = refl
cloned_claims_kept (some q) none none h old = refl
cloned_claims_kept (some q) (some r) none h old = refl
cloned_claims_kept (some q) none (some c) h old =
    let below : q < h.next = old q refl in
    ap some (put_cell-other h.next q (h.claim_cells c) h.claim_cells (λ e. omega (arith, below, e)))
cloned_claims_kept (some q) (some r) (some c) h old =
    let below : q < h.next = old q refl in
    ap some
      (put_cell-other (suc h.next) q (h.claim_cells c) h.claim_cells (λ e. omega (arith, below, e)))

-- A clone changes nothing that was there before.
pub contents-cloned_kept :
    (c id : Identity) (h : Heap)
    → ((t : ℕ) → (c.roles ≡ some t) ⊎ (c.claims ≡ some t) → t < h.next)
    → contents c (clone id h).1 ≡ contents c h
unfolding clone
contents-cloned_kept c id h old =
    rw
      (
        cloned_roles_kept c.roles id.roles id.claims h (λ t e. old t (inl e)),
        cloned_claims_kept c.claims id.roles id.claims h (λ t e. old t (inr e)),
      )
      refl

pub clone_before :
    (id : Identity) (h : Heap) (t : ℕ)
    → ((clone id h).0.roles ≡ some t) ⊎ ((clone id h).0.claims ≡ some t)
    → t < (clone id h).1.next
unfolding clone
clone_before id h t e = cloned_before id.roles id.claims h t e
