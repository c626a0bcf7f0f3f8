-- ===== src/Ports/Storage/Prefix.antt =====
-- Which keys List of ports/storage/storagetest/reference.go selects by a prefix.
use mathlib.Core.Bool.{Bool-set}
use mathlib.Core.Logic.{∥∥₁_map, ∥∥₁_elim}
use mathlib.Core.List.{Memᴰ, Mem}
use text.Mathlib.Text.{starts_with}
use text.Mathlib.TextBridge.{IsPrefix}
use text.Mathlib.TextEquality.{starts_with_iff}
use go_ddd_core.Prelude.{
  String, Bool, true, ◌≡◌, ◌↔◌, sym, ap, ◌∙◌, inl, inr, List, [], ◌∷◌, keep, Bool-cases,
}
use go_ddd_core.Ports.Storage.Reference.{MemStorage, matching_keys}
use go_ddd_core.Ports.Storage.Objects.{keys}

module _ (p : String → Bool) where
  kept_sound :
      (k j : String) (ks : List String)
      → p j ≡ true
      → (Memᴰ k (keep p ks) → Memᴰ k ks × (p k ≡ true))
      → Memᴰ k (j ∷ keep p ks)
      → Memᴰ k (j ∷ ks) × (p k ≡ true)
  kept_sound k j ks h rest (Memᴰ.head e) = (Memᴰ.head e, ap p e ∙ h)
  kept_sound k j ks h rest (Memᴰ.tail m) = let (n, e) = rest m in (Memᴰ.tail n, e)

  keep_sound : (k : String) (ks : List String) → Memᴰ k (keep p ks) → Memᴰ k ks × (p k ≡ true)
  keep_sound k [] m = elim m [ ]
  keep_sound k (j ∷ ks) m = elim (Bool-cases (p j)) [
    | inr h ↦ let (n, e) = keep_sound k ks (rw (h, keep) at m) in (Memᴰ.tail n, e)
    | inl h ↦ kept_sound k j ks h (keep_sound k ks) (rw (h, keep) at m)
  ]

  keep_complete : (k : String) (ks : List String) → p k ≡ true → Memᴰ k ks → Memᴰ k (keep p ks)
  keep_complete k [] h m = elim m [ ]
  keep_complete k (j ∷ ks) h (Memᴰ.head e) = rw (ap p (sym e) ∙ h, keep) (Memᴰ.head e)
  keep_complete k (j ∷ ks) h (Memᴰ.tail m) = elim (Bool-cases (p j)) [
    | inr f ↦ rw (f, keep) (keep_complete k ks h m)
    | inl t ↦ rw (t, keep) (Memᴰ.tail (keep_complete k ks h m))
  ]

-- The keys that List selects are the keys of the store that begin with the prefix.
pub matching_keys-Mem :
    (m : MemStorage) (prefix k : String)
    → Mem k (matching_keys prefix m) ↔ (Mem k (keys m) × IsPrefix prefix k)
unfolding matching_keys
matching_keys-Mem m prefix k =
    let p = λ (j : String). starts_with j prefix in
    (
      λ h. (
        ∥∥₁_map h (λ d. (keep_sound p k (keys m) d).0),
        (starts_with_iff k prefix).0
            (∥∥₁_elim h (Bool-set (p k) true) (λ d. (keep_sound p k (keys m) d).1)),
      ),
      λ (h, q). ∥∥₁_map h (λ d. keep_complete p k (keys m) ((starts_with_iff k prefix).1 q) d),
    )
