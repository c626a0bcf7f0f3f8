-- ===== src/Uuid/Laws.antt =====
-- What pkg/vo/uuid promises, where github.com/google/uuid parses what it prints.
use go_ddd_core.Prelude.{String, true, ◌≡◌, refl, ap, ◌∙◌, sym, ◌↔◌, none, some}
use go_ddd_core.Errors.{Error, ok, err}
use go_ddd_core.Uuid.{
  Gguid, Uuid, uuid, returned, parse, must_parse, string, equal, marshal_text, unmarshal_text,
}

module _ {G : Type 0} (gguid : Gguid G) where
  -- The documented behaviour of github.com/google/uuid: `Parse` reads what `String` prints, and `==` is
  -- equality.
  pub record IsFaithful : Type 0 where
    pub parse-string : (g : G) → gguid.parse (gguid.string g) ≡ ok g
    pub equal_iff : (a b : G) → (gguid.equal a b ≡ true) ↔ (a ≡ b)

module _ {G : Type 0} (gguid : Gguid G) (h : IsFaithful gguid) where
  parse-string_lem : (u : Uuid G) → parse gguid (string gguid u) ≡ ok u
  unfolding parse string
  parse-string_lem u = rw (h.parse-string u.v) refl

  -- What MarshalText writes, UnmarshalText and MustParse read back, into any receiver and without an error.
  unmarshal_text-marshal_text :
      (receiver u : Uuid G)
      → (text : String) × (marshal_text gguid u ≡ ok text)
        × (unmarshal_text gguid receiver text ≡ (u, none))
        × (must_parse gguid text ≡ returned u)
  unfolding marshal_text unmarshal_text must_parse
  unmarshal_text-marshal_text receiver u =
      (string gguid u, refl, rw (parse-string_lem u) refl, rw (parse-string_lem u) refl)

  -- Two UUIDs are equal as value objects exactly when their canonical texts are.
  equal-string :
      (O : Type 0) (u w : Uuid G)
      → (equal gguid {O = O} u (uuid w) ≡ true) ↔ (string gguid u ≡ string gguid w)
  unfolding equal string
  equal-string O u w = (
    λ e. ap gguid.string ((h.equal_iff u.v w.v).0 e),
    λ e.
        (h.equal_iff u.v w.v).1
          (cc (sym (h.parse-string u.v) ∙ ap gguid.parse e ∙ h.parse-string w.v)),
  )

-- A text that does not parse leaves the receiver as it was, with the parser's error.
unmarshal_text_failing :
    {G : Type 0} (gguid : Gguid G) (receiver : Uuid G) (text : String) (e : Error)
    → gguid.parse text ≡ err e
    → unmarshal_text gguid receiver text ≡ (receiver, some e)
unfolding unmarshal_text parse
unmarshal_text_failing gguid receiver text e h = rw h refl
