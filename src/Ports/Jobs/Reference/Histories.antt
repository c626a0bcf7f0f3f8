-- ===== src/Ports/Jobs/Reference/Histories.antt =====
-- Histories of the reference store of ports/jobs/jobstest/delivery_test.go.
use mathlib.Core.List.{Memᴰ, map-append}
use go_ddd_core.Prelude.{
  ℕ, suc, ◌≤◌, ◌<◌, ◌≡◌, ◌≢◌, refl, sym, subst, ◌∙◌, String, Bool, true, some, List, [], ◌∷◌, ◌++◌,
  All, arith,
}
use go_ddd_core.Prelude.Sorting.{IsDistinct}
use go_ddd_core.Ports.Jobs.Delivery.{Task}
use go_ddd_core.Ports.Jobs.Reference.{
  RefJob, RefStore, new_ref_store, new_ref_job, store_enqueue, claim, complete, retry,
}
use go_ddd_core.Ports.Jobs.Reference.Exclusive.{
  Step, enqueues, claims, completes, retries, take_step, take_steps, Spares, ids, HeldIf,
  HoldsGiven, change-All, claim-All, claim_spares, claim-ids, change-ids, claim-HoldsGiven,
}

append-All :
    {A : Type 0} (P : A → Type 0) (xs : List A) (y : A) → All P xs → P y → All P (xs ++ y ∷ [])
append-All P [] y a p = (p, tt)
append-All P (x ∷ xs) y (q, a) p = (q, append-All P xs y a p)

append-IsDistinct :
    (xs : List String) (y : String)
    → IsDistinct xs
    → All (λ x. x ≢ y) xs
    → IsDistinct (xs ++ y ∷ [])
append-IsDistinct [] y d n = (tt, tt)
append-IsDistinct (x ∷ xs) y (d, ds) (n, ns) =
    (append-All (λ k. x ≢ k) xs y d n, append-IsDistinct xs y ds ns)

map-All :
    {A : Type 0} {P Q : A → Type 0} (xs : List A) → ((x : A) → P x → Q x) → All P xs → All Q xs
map-All [] f a = tt
map-All (x ∷ xs) f (p, a) = (f x p, map-All xs f a)

All_get : (P : String → Type 0) (i : String) (is : List String) → All P is → Memᴰ i is → P i
All_get P i [] a m = elim m [ ]
All_get P i (x ∷ is) (p, a) (Memᴰ.head e) = subst P (sym e) p
All_get P i (x ∷ is) (p, a) (Memᴰ.tail m) = All_get P i is a m

module _ (name : ℕ → String) where
  -- The identifier is one that has been made.
  abbrev Made : ℕ → String → Type 0
  Made seq i = (k : ℕ) × (k ≤ seq) × (i ≡ name k)

  -- No identifier twice, and each made by Enqueue.
  abbrev IsNamed : RefStore → Type 0
  IsNamed s = IsDistinct (ids s.jobs) × All (Made s.seq) (ids s.jobs)

  -- The job `i` is claimed, and no later job is called so.
  abbrev Held : String → RefStore → Type 0
  Held i s = All (HeldIf i) s.jobs × ((k : ℕ) → s.seq < k → name k ≢ i)

  take_step-Held :
      (i : String) (p : Step) (s : RefStore)
      → Spares i p
      → Held i s
      → All (λ t. t.id ≢ i) (take_step name p s).1 × Held i (take_step name p s).0
  unfolding store_enqueue complete retry
  take_step-Held i (enqueues job) s n (a, f) = (
    tt,
    (
      append-All (HeldIf i) s.jobs (new_ref_job (name (suc s.seq)) job) a
          (λ e. absurd (f (suc s.seq) (omega arith) e)),
      λ k l. f k (omega (arith, l)),
    ),
  )
  take_step-Held i (claims now has) s n (a, f) =
      (claim_spares i now has s.jobs a, (claim-All (HeldIf i) now has s.jobs (λ j h e. refl) a, f))
  take_step-Held i (completes k) s n (a, f) =
      (tt, (change-All (HeldIf i) (λ j. record j { done = true }) k s.jobs (λ j e h. h) a, f))
  take_step-Held i (retries k later now) s n (a, f) =
      (tt, (change-All (HeldIf i) _ k s.jobs (λ j e h same. absurd (n (sym e ∙ same))) a, f))

  take_steps-Held :
      (i : String) (ps : List Step) (s : RefStore)
      → All (Spares i) ps
      → Held i s
      → All (λ t. t.id ≢ i) (take_steps name ps s).1
  unfolding take_steps
  take_steps-Held i [] s n h = tt
  take_steps-Held i (p ∷ ps) s (n, ns) h =
      let (first, held) = take_step-Held i p s n h in
      join_all (take_step name p s).1 (take_steps name ps (take_step name p s).0).1 first
        (take_steps-Held i ps (take_step name p s).0 ns held)
    where
      join_all :
          (xs ys : List Task)
          → All (λ t. t.id ≢ i) xs
          → All (λ t. t.id ≢ i) ys
          → All (λ t. t.id ≢ i) (xs ++ ys)
      join_all [] ys a b = b
      join_all (x ∷ xs) ys (p, a) b = (p, join_all xs ys a b)

  module _ (distinct : (j k : ℕ) → name j ≡ name k → j ≡ k) where
    take_step-IsNamed : (p : Step) (s : RefStore) → IsNamed s → IsNamed (take_step name p s).0
    unfolding store_enqueue complete retry
    take_step-IsNamed (enqueues job) s (d, m) =
        subst (λ is. IsDistinct is × All (Made (suc s.seq)) is)
          (sym (map-append (λ (j : RefJob). j.id) s.jobs (new_ref_job (name (suc s.seq)) job ∷ [])))
          (
            append-IsDistinct (ids s.jobs) (name (suc s.seq)) d (
                map-All (ids s.jobs)
                  (λ x (k, l, e) h. omega (arith, l, distinct k (suc s.seq) (sym e ∙ h))) m),
            append-All (Made (suc s.seq)) (ids s.jobs) (name (suc s.seq))
                (map-All (ids s.jobs) (λ x (k, l, e). (k, omega (arith, l), e)) m)
                (suc s.seq, omega arith, refl),
          )
    take_step-IsNamed (claims now has) s n =
        subst (λ is. IsDistinct is × All (Made s.seq) is) (sym (claim-ids now has s.jobs)) n
    take_step-IsNamed (completes k) s n =
        subst (λ is. IsDistinct is × All (Made s.seq) is)
          (sym (change-ids (λ j. record j { done = true }) k s.jobs (λ j. refl))) n
    take_step-IsNamed (retries k later now) s n =
        subst (λ is. IsDistinct is × All (Made s.seq) is) (sym (change-ids _ k s.jobs (λ j. refl)))
          n

    take_steps-IsNamed :
        (ps : List Step) (s : RefStore) → IsNamed s → IsNamed (take_steps name ps s).0
    unfolding take_steps
    take_steps-IsNamed [] s n = n
    take_steps-IsNamed (p ∷ ps) s n =
        take_steps-IsNamed ps (take_step name p s).0 (take_step-IsNamed p s n)

    given-Held :
        (now : ℕ) (has : String → Bool) (s : RefStore) (t : Task)
        → IsNamed s
        → (claim now has s.jobs).0 ≡ some t
        → Held t.id (take_step name (claims now has) s).0
    given-Held now has s t (d, m) e =
        let (known, held) =
          subst (λ x. HoldsGiven x s.jobs (claim now has s.jobs).1) e
            (claim-HoldsGiven now has s.jobs d) in
        let (k, l, same) = All_get (Made s.seq) t.id (ids s.jobs) m known in
        (held, λ j later h. omega (arith, l, later, distinct j k (h ∙ same)))

-- At most one handler at a time: in a store that any steps have made of the new one, the task that a claim
-- gives is given by no later claim, of any worker and at any time, until `retry` puts its job back;
-- whatever jobs are enqueued, claimed, completed and put back meanwhile, if no two numbers make the
-- same identifier.
pub claim_exclusive :
    (name : ℕ → String) (before later : List Step) (now : ℕ) (has : String → Bool) (t : Task)
    → ((j k : ℕ) → name j ≡ name k → j ≡ k)
    → (claim now has (take_steps name before new_ref_store).0.jobs).0 ≡ some t
    → All (Spares t.id) later
    → All
        (λ u. u.id ≢ t.id)
        (take_steps name later
          (take_step name (claims now has) (take_steps name before new_ref_store).0).0).1
claim_exclusive name before later now has t distinct e spares =
    let s = (take_steps name before new_ref_store).0 in
    take_steps-Held name t.id later (take_step name (claims now has) s).0 spares (
      given-Held name distinct now has s t
        (take_steps-IsNamed name distinct before new_ref_store (tt, tt)) e)
