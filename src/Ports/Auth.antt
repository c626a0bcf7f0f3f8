-- ===== src/Ports/Auth.antt =====
-- ports/auth/auth.go and ports/auth/authz.go: identities with a slice of roles and a map of claims by
-- reference, in a context, and the sentinels. A reference is a number, nil is none, and the values of
-- claims are texts, since nested values are shared and have to be left alone.
pub mod Cloning
pub mod Isolation
pub mod Access
use go_ddd_core.Prelude.{
  ℕ, zero, suc, String, Bool, true, false, Option, none, some, List, [], ◌∷◌, ◌==◌,
}
use go_ddd_core.Prelude.Dict.{Dict, insert}
use go_ddd_core.Errors.{Error, sentinel}
use go_ddd_core.Errorsx.{code_unauthorized, code_forbidden, code_invalid_argument}

pub record Identity : Type 0 where
  pub subject : String
  pub tenant_id : String
  pub roles : Option ℕ
  pub claims : Option ℕ

-- `Identity{}`
abbrev pub no_identity : Identity
no_identity = record { subject = ""; tenant_id = ""; roles = none; claims = none }

-- The slices of roles and the maps of claims that have been made.
pub record Heap : Type 0 where
  pub next : ℕ
  pub role_cells : ℕ → List String
  pub claim_cells : ℕ → Dict String

abbrev pub put_cell : {A : Type 0} → ℕ → A → (ℕ → A) → ℕ → A
put_cell r a cells j = elim (j == r) [ true ↦ a | false ↦ cells j ]

-- `slices.Clone(id.Roles)`
abbrev pub clone_roles : Option ℕ → Heap → Option ℕ × Heap
clone_roles none h = (none, h)
clone_roles (some r) h = (
  some h.next,
  record h { next = suc h.next; role_cells = put_cell h.next (h.role_cells r) h.role_cells },
)

-- `maps.Clone(id.Claims)`
abbrev pub clone_claims : Option ℕ → Heap → Option ℕ × Heap
clone_claims none h = (none, h)
clone_claims (some r) h = (
  some h.next,
  record h { next = suc h.next; claim_cells = put_cell h.next (h.claim_cells r) h.claim_cells },
)

-- `id.Clone()`
unfoldable pub clone : Identity → Heap → Identity × Heap
clone id h =
    let (rs, h₁) = clone_roles id.roles h in
    let (cs, h₂) = clone_claims id.claims h₁ in (record id { roles = rs; claims = cs }, h₂)

-- The identities that have been put into a context, the last first; `ctx.Value` finds the last.
abbrev pub AuthContext : Type 0
AuthContext = List Identity

-- `WithIdentity(ctx, id)`
unfoldable pub with_identity : AuthContext → Identity → Heap → AuthContext × Heap
with_identity ctx id h = let (id', h') = clone id h in (id' ∷ ctx, h')

-- `IdentityFromContext(ctx)`
unfoldable pub identity_from_context : AuthContext → Heap → (Identity × Bool) × Heap
identity_from_context [] h = ((no_identity, false), h)
identity_from_context (id ∷ ctx) h = let (id', h') = clone id h in ((id', true), h')

-- The sentinels of the two files.
abbrev pub err_token_missing : Error
err_token_missing = sentinel code_unauthorized "auth: token missing"

abbrev pub err_token_invalid : Error
err_token_invalid = sentinel code_unauthorized "auth: token invalid"

abbrev pub err_token_expired : Error
err_token_expired = sentinel code_unauthorized "auth: token expired"

abbrev pub err_forbidden : Error
err_forbidden = sentinel code_forbidden "auth: forbidden"

abbrev pub err_invalid_authorization_request : Error
err_invalid_authorization_request =
    sentinel code_invalid_argument "auth: invalid authorization request"
