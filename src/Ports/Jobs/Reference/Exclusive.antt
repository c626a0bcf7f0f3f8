-- ===== src/Ports/Jobs/Reference/Exclusive.antt =====
-- The reference store of ports/jobs/jobstest/delivery_test.go gives a claimed job to nobody else.
use mathlib.Core.List.{Memᴰ}
use go_ddd_core.Prelude.{
  ℕ, ◌≡◌, ◌≢◌, refl, sym, ap, ◌∙◌, String, Bool, true, false, inl, inr, Option, none, some, List,
  [], ◌∷◌, ◌++◌, map, All, Bool-cases, str_eq, eq_iff,
}
use go_ddd_core.Prelude.Sorting.{IsDistinct}
use go_ddd_core.Ports.Jobs.{Job}
use go_ddd_core.Ports.Jobs.Delivery.{Task}
use go_ddd_core.Ports.Jobs.Reference.{
  RefJob, RefStore, store_enqueue, claim, eligible, taken, change, complete, retry,
}

-- What enqueuers and workers do with the store: each is one critical section.
pub data Step : Type 0 where
  enqueues : Job → Step
  claims : ℕ → (String → Bool) → Step
  completes : String → Step
  retries : String → ℕ → ℕ → Step

abbrev pub given : Option Task → List Task
given none = []
given (some t) = t ∷ []

module _ (name : ℕ → String) where
  -- The store after a step, and the tasks that the step hands out.
  abbrev pub take_step : Step → RefStore → RefStore × List Task
  take_step (enqueues job) s = ((store_enqueue name job s).0, [])
  take_step (claims now has) s =
      let (t, js) = claim now has s.jobs in (record s { jobs = js }, given t)
  take_step (completes i) s = (record s { jobs = complete i s.jobs }, [])
  take_step (retries i after now) s = (record s { jobs = retry i after now s.jobs }, [])

  unfoldable pub take_steps : List Step → RefStore → RefStore × List Task
  take_steps [] s = (s, [])
  take_steps (p ∷ ps) s =
      let (s', ts) = take_step p s in let (end, more) = take_steps ps s' in (end, ts ++ more)

-- The step does not put the job `i` back.
abbrev pub Spares : String → Step → Type 0
Spares i (enqueues job) = Unit {0}
Spares i (claims now has) = Unit {0}
Spares i (completes j) = Unit {0}
Spares i (retries j after now) = j ≢ i

abbrev pub ids : List RefJob → List String
ids js = map (λ j. j.id) js

module _ (P : RefJob → Type 0) where
  pub change-All :
      (f : RefJob → RefJob) (i : String) (js : List RefJob)
      → ((j : RefJob) → j.id ≡ i → P j → P (f j))
      → All P js
      → All P (change f i js)
  change-All f i [] g a = tt
  change-All f i (j ∷ js) g (p, a) = elim (Bool-cases (str_eq j.id i)) [
    | inl h ↦ rw (h, change) (g j ((eq_iff j.id i).0 h) p, a)
    | inr h ↦ rw (h, change) (p, change-All f i js g a)
  ]

  pub claim-All :
      (now : ℕ) (has : String → Bool) (js : List RefJob)
      → ((j : RefJob) → P j → P (taken j))
      → All P js
      → All P (claim now has js).1
  unfolding claim
  claim-All now has [] g a = tt
  claim-All now has (j ∷ js) g (p, a) = elim (Bool-cases (eligible now has j)) [
    | inl h ↦ rw (h, claim) (g j p, a)
    | inr h ↦ rw (h, claim) (p, claim-All now has js g a)
  ]

-- If the job is `i`, it is claimed.
abbrev pub HeldIf : String → RefJob → Type 0
HeldIf i j = j.id ≡ i → j.claimed ≡ true

claimed-eligible :
    (now : ℕ) (has : String → Bool) (j : RefJob) → j.claimed ≡ true → eligible now has j ≡ false
claimed-eligible now has j c = elim (Bool-cases j.done) [
  | inl h ↦ rw h refl
  | inr h ↦ rw (h, c) refl
]

pub claim_spares :
    (i : String) (now : ℕ) (has : String → Bool) (js : List RefJob)
    → All (HeldIf i) js
    → All (λ t. t.id ≢ i) (given (claim now has js).0)
unfolding claim
claim_spares i now has [] a = tt
claim_spares i now has (j ∷ js) (p, a) = elim (Bool-cases (eligible now has j)) [
  | inl h ↦ rw (h, claim) (λ e. cc (sym h ∙ claimed-eligible now has j (p e)), tt)
  | inr h ↦ rw (h, claim) (claim_spares i now has js a)
]

pub claim-ids :
    (now : ℕ) (has : String → Bool) (js : List RefJob) → ids (claim now has js).1 ≡ ids js
unfolding claim
claim-ids now has [] = refl
claim-ids now has (j ∷ js) = elim (Bool-cases (eligible now has j)) [
  | inl h ↦ rw (h, claim) refl
  | inr h ↦ rw (h, claim) (ap (λ is. j.id ∷ is) (claim-ids now has js))
]

pub change-ids :
    (f : RefJob → RefJob) (i : String) (js : List RefJob)
    → ((j : RefJob) → (f j).id ≡ j.id)
    → ids (change f i js) ≡ ids js
change-ids f i [] same = refl
change-ids f i (j ∷ js) same = elim (Bool-cases (str_eq j.id i)) [
  | inl h ↦ rw (h, change) (ap (λ k. k ∷ ids js) (same j))
  | inr h ↦ rw (h, change) (ap (λ is. j.id ∷ is) (change-ids f i js same))
]

-- What a claim gives has one of the identifiers, and is claimed afterwards.
abbrev pub HoldsGiven : Option Task → List RefJob → List RefJob → Type 0
HoldsGiven none js after = Unit {0}
HoldsGiven (some t) js after = Memᴰ t.id (ids js) × All (HeldIf t.id) after

unlike-All : (i : String) (js : List RefJob) → All (λ k. i ≢ k) (ids js) → All (HeldIf i) js
unlike-All i [] a = tt
unlike-All i (j ∷ js) (n, a) = (λ e. absurd (n (sym e)), unlike-All i js a)

All-Memᴰ : (i k : String) (is : List String) → All (λ x. i ≢ x) is → Memᴰ k is → i ≢ k
All-Memᴰ i k (x ∷ is) (n, a) (Memᴰ.head e) = λ h. n (h ∙ e)
All-Memᴰ i k (x ∷ is) (n, a) (Memᴰ.tail m) = All-Memᴰ i k is a m
All-Memᴰ i k [] a m = elim m [ ]

holds_later :
    (x : Option Task) (j : RefJob) (js after : List RefJob)
    → All (λ k. j.id ≢ k) (ids js)
    → HoldsGiven x js after
    → HoldsGiven x (j ∷ js) (j ∷ after)
holds_later none j js after n h = tt
holds_later (some t) j js after n (m, a) =
    (Memᴰ.tail m, (λ e. absurd (All-Memᴰ j.id t.id (ids js) n m e), a))

pub claim-HoldsGiven :
    (now : ℕ) (has : String → Bool) (js : List RefJob)
    → IsDistinct (ids js)
    → HoldsGiven (claim now has js).0 js (claim now has js).1
unfolding claim
claim-HoldsGiven now has [] d = tt
claim-HoldsGiven now has (j ∷ js) (n, d) = elim (Bool-cases (eligible now has j)) [
  | inl h ↦ rw (h, claim) (Memᴰ.head refl, (λ e. refl, unlike-All j.id js n))
  | inr h ↦
      rw (h, claim)
        (holds_later (claim now has js).0 j js (claim now has js).1 n
          (claim-HoldsGiven now has js d))
]
