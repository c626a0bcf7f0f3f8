-- ===== src/Uuid.antt =====
-- pkg/vo/uuid/uuid.go and pkg/idgen/idgen.go. The package github.com/google/uuid is the parameter `Gguid`, over
-- its type `G` of identifiers; what its random source gives is an argument. A text is its bytes.
pub mod Laws
use go_ddd_core.Prelude.{String, Bool, false, Option, none, some}
use go_ddd_core.Errors.{Error, Result, ok, err}

-- What the two packages call of github.com/google/uuid; `equal` is Go's `==` on its arrays.
pub record Gguid (G : Type 0) : Type 0 where
  pub nil : G
  pub parse : String → Result G
  pub string : G → String
  pub equal : G → G → Bool

-- A call that returns, or that panics with an error.
pub data Outcome (A : Type 0) : Type 0 where
  returned : A → Outcome A
  panicked : Error → Outcome A

-- `UUID`
pub record Uuid (G : Type 0) : Type 0 where
  pub v : G

-- A `domain.ValueObject`: one of this type, or one of another.
pub data ValueObject (G O : Type 0) : Type 0 where
  uuid : Uuid G → ValueObject G O
  other : O → ValueObject G O

module _ {G : Type 0} (gguid : Gguid G) where
  -- `Nil`
  abbrev pub nil : Uuid G
  nil = record { v = gguid.nil }

  abbrev pub wrapped_or_panic : Result G → Outcome (Uuid G)
  wrapped_or_panic (ok g) = returned (record { v = g })
  wrapped_or_panic (err e) = panicked e

  -- `New()`, where `generated` is what `gguid.NewV7()` gives; `gguid.Must` panics on its error.
  unfoldable pub new : Result G → Outcome (Uuid G)
  new generated = wrapped_or_panic generated

  abbrev pub parsed : Result G → Result (Uuid G)
  parsed (ok g) = ok (record { v = g })
  parsed (err e) = err e

  -- `Parse(s)`
  unfoldable pub parse : String → Result (Uuid G)
  parse s = parsed (gguid.parse s)

  abbrev pub or_panic : Result (Uuid G) → Outcome (Uuid G)
  or_panic (ok u) = returned u
  or_panic (err e) = panicked e

  -- `MustParse(s)`
  unfoldable pub must_parse : String → Outcome (Uuid G)
  must_parse s = or_panic (parse s)

  -- `u.String()`
  unfoldable pub string : Uuid G → String
  string u = gguid.string u.v

  -- `u.IsNil()`
  unfoldable pub is_nil : Uuid G → Bool
  is_nil u = gguid.equal u.v gguid.nil

  -- `u.Equal(other)`
  unfoldable pub equal : {O : Type 0} → Uuid G → ValueObject G O → Bool
  equal u (uuid o) = gguid.equal u.v o.v
  equal u (other o) = false

  -- `u.MarshalText()`
  unfoldable pub marshal_text : Uuid G → Result String
  marshal_text u = ok (string u)

  abbrev pub assigned : Uuid G → Result (Uuid G) → Uuid G × Option Error
  assigned u (ok p) = (p, none)
  assigned u (err e) = (u, some e)

  -- `u.UnmarshalText(text)`: the receiver afterwards and the error.
  unfoldable pub unmarshal_text : Uuid G → String → Uuid G × Option Error
  unmarshal_text u text = assigned u (parse text)

-- `GeneratorFunc(f).New()`
unfoldable pub generator_func : {S : Type 0} → (S → S × String) → S → S × String
generator_func f s = f s

module _ {G S : Type 0} (gguid : Gguid G) where
  -- `UUIDv4()`, over the state of the random source.
  unfoldable pub uuid_v4 : (S → S × String) → S → S × String
  unfolding generator_func
  uuid_v4 new_string = generator_func new_string

  abbrev pub v7_or_v4 : (S → S × String) → S × Result G → S × String
  v7_or_v4 new_string (s, ok g) = (s, gguid.string g)
  v7_or_v4 new_string (s, err e) = new_string s

  -- `UUIDv7()`
  unfoldable pub uuid_v7 : (S → S × Result G) → (S → S × String) → S → S × String
  unfolding generator_func
  uuid_v7 new_v7 new_string = generator_func (λ s. v7_or_v4 new_string (new_v7 s))
