-- ===== src/Ports/Idempotency/Fake.antt =====
-- ports/idempotency/idempotencytest/idempotencytest_test.go: the reference store, without its lock:
-- each method is one critical section.
use Prim.Native.String.{◌++◌, slice}
use go_ddd_core.Prelude.{
  ℕ, zero, suc, ◌+◌, ◌-◌, ◌/◌, ◌%◌, String, Bool, true, false, ◌&&◌, ◌||◌, not, Option, none, some,
  List, [], ◌∷◌, str_eq, ltb, leb, ◌==◌,
}
use go_ddd_core.Prelude.Int.{pos}
use go_ddd_core.Errors.{Error, wrapped, to_error, error_text}
use go_ddd_core.Errorsx
use go_ddd_core.Errorsx.{code_invalid_argument, code_conflict}
use go_ddd_core.Ports.{
  Reservation, status_new, status_in_progress, status_completed, status_mismatch,
}
use go_ddd_core.Ports.Slices.{alloc}
use go_ddd_core.Ports.Contexts.{Context, context_error}
use go_ddd_core.Ports.Idempotency.{World, reservation, no_reservation, Store}

-- `fakeEntry`, with its `fakeKey`; it is in progress or completed.
pub record FakeEntry : Type 0 where
  pub scope : String
  pub key : String
  pub fingerprint : String
  pub lease_token : String
  pub completed : Bool
  pub response : Option ℕ
  pub reserved_at : ℕ

-- `fakeStore`
pub record FakeStore : Type 0 where
  pub entries : List FakeEntry
  pub seq : ℕ
  pub reclaim_after : ℕ

abbrev pub new_fake_store : ℕ → FakeStore
new_fake_store after = record { entries = []; seq = 0; reclaim_after = after }

-- `strconv.Itoa(n)`, where `fuel` exceeds the number of digits.
unfoldable pub digits : ℕ → ℕ → String
digits zero n = ""
digits (suc fuel) n = elim (ltb n 10) [
  | true ↦ slice "0123456789" n (n + 1)
  | false ↦ digits fuel (n / 10) ++ slice "0123456789" (n % 10) (n % 10 + 1)
]

-- `"lease-" + strconv.Itoa(s.seq)`
abbrev pub lease : ℕ → String
lease seq = "lease-" ++ digits (suc seq) seq

-- `s.entries[fk]`
abbrev pub find_entry : String → String → List FakeEntry → Option FakeEntry
find_entry scope key [] = none
find_entry scope key (e ∷ es) = elim (str_eq e.scope scope && str_eq e.key key) [
  | true ↦ some e
  | false ↦ find_entry scope key es
]

-- `delete(s.entries, fk)`
abbrev pub drop_entry : String → String → List FakeEntry → List FakeEntry
drop_entry scope key [] = []
drop_entry scope key (e ∷ es) = elim (str_eq e.scope scope && str_eq e.key key) [
  | true ↦ drop_entry scope key es
  | false ↦ e ∷ drop_entry scope key es
]

-- `s.reclaimable(e)`, at the time `t`
abbrev pub reclaimable : FakeStore → FakeEntry → ℕ → Bool
reclaimable s e t =
    not (s.reclaim_after == 0) && not e.completed && leb s.reclaim_after (t - e.reserved_at)

abbrev dropped : String → String → FakeStore → FakeStore
dropped scope key s = record s { entries = drop_entry scope key s.entries }

-- `s.lookup(fk)`
unfoldable pub lookup_live : String → String → ℕ → FakeStore → FakeStore × Option FakeEntry
lookup_live scope key t s = elim (find_entry scope key s.entries) [
  | none ↦ (s, none)
  | some e ↦ elim (reclaimable s e t) [ true ↦ (dropped scope key s, none) | false ↦ (s, some e) ]
]

abbrev context_failure : Error → Error
context_failure e = wrapped ("idempotencytest: " ++ error_text e) e

abbrev invalid : String → Error
invalid msg = to_error (Errorsx.new code_invalid_argument msg)

abbrev pub err_stale : Error
err_stale =
    to_error
      (Errorsx.new code_conflict "idempotencytest: stale, reclaimed, or terminal reservation")

-- `cloneBytes(b)`
abbrev pub clone_bytes : Option ℕ → World → World × Option ℕ
clone_bytes none w = (w, none)
clone_bytes (some r) w =
    let (out, h) = alloc (w.heap.bytes r) w.heap in (record w { heap = h }, some out)

-- A reservation of a key that has no entry.
abbrev pub reserve :
    String
    → String
    → String
    → FakeStore
    → World
    → (FakeStore × World) × (Reservation × Option Error)
reserve scope key fingerprint s w =
    let tok = lease (suc s.seq) in
    let e : FakeEntry = record {
      scope = scope;
      key = key;
      fingerprint = fingerprint;
      lease_token = tok;
      completed = false;
      response = none;
      reserved_at = w.now;
    } in
    (
      (record s { entries = e ∷ s.entries; seq = suc s.seq }, w),
      (
        record (reservation scope key status_new) {
          lease_token = tok;
          lease_ttl = pos 60000000000;
        },
        none,
      ),
    )

-- What an entry answers to a Begin.
abbrev pub report :
    String
    → String
    → String
    → FakeStore
    → World
    → FakeEntry
    → (FakeStore × World) × (Reservation × Option Error)
report scope key fingerprint s w e = elim (str_eq e.fingerprint fingerprint) [
  | false ↦ ((s, w), (reservation scope key status_mismatch, none))
  | true ↦ elim e.completed [
    | false ↦ ((s, w), (reservation scope key status_in_progress, none))
    | true ↦
        let (w', out) = clone_bytes e.response w in
        ((s, w'), (record (reservation scope key status_completed) { response = out }, none))
  ]
]

-- `s.Begin(ctx, scope, key, fingerprint)`
unfoldable pub fake_begin :
    Context
    → String
    → String
    → String
    → FakeStore × World
    → (FakeStore × World) × (Reservation × Option Error)
unfolding lookup_live
fake_begin ctx scope key fingerprint (s, w) = elim (context_error ctx) [
  | some e ↦ ((s, w), (no_reservation, some (context_failure e)))
  | none ↦ elim (str_eq scope "" || str_eq key "" || str_eq fingerprint "") [
    | true ↦ (
      (s, w),
      (no_reservation, some (invalid "idempotencytest: empty scope, key, or fingerprint")),
    )
    | false ↦
        let (s', found) = lookup_live scope key w.now s in
        elim found [
          | none ↦ reserve scope key fingerprint s' w
          | some e ↦ report scope key fingerprint s' w e
        ]
  ]
]

abbrev pub is_malformed : Reservation → Bool
is_malformed res = str_eq res.scope "" || str_eq res.key "" || str_eq res.lease_token ""

-- The entry that the reservation owns, in progress.
abbrev pub owns : Reservation → FakeEntry → Bool
owns res e = not e.completed && str_eq e.lease_token res.lease_token

-- The entry with its outcome: completed records have no owner.
abbrev pub complete_entry : FakeEntry → Option ℕ → FakeEntry
complete_entry e out = record e { completed = true; response = out; lease_token = "" }

abbrev pub replace_entry : FakeEntry → FakeStore → FakeStore
replace_entry e s = record s { entries = e ∷ drop_entry e.scope e.key s.entries }

-- The checks that Finish and Cancel share, and `k` for the entry that the reservation owns.
unfoldable pub with_owned :
    Context
    → Reservation
    → (FakeStore → World → FakeEntry → (FakeStore × World) × Option Error)
    → FakeStore × World
    → (FakeStore × World) × Option Error
unfolding lookup_live
with_owned ctx res k (s, w) = elim (context_error ctx) [
  | some e ↦ ((s, w), some (context_failure e))
  | none ↦ elim (is_malformed res) [
    | true ↦ ((s, w), some (invalid "idempotencytest: malformed reservation"))
    | false ↦
        let (s', found) = lookup_live res.scope res.key w.now s in
        elim found [
          | none ↦ ((s', w), some err_stale)
          | some e ↦ elim (owns res e) [ false ↦ ((s', w), some err_stale) | true ↦ k s' w e ]
        ]
  ]
]

-- `s.Finish(ctx, res, response)`
unfoldable pub fake_finish :
    Context → Reservation → Option ℕ → FakeStore × World → (FakeStore × World) × Option Error
fake_finish ctx res response = with_owned ctx res λ s w e.
    let (w', out) = clone_bytes response w in ((replace_entry (complete_entry e out) s, w'), none)

-- `s.Cancel(ctx, res)`
unfoldable pub fake_cancel :
    Context → Reservation → FakeStore × World → (FakeStore × World) × Option Error
fake_cancel ctx res = with_owned ctx res λ s w e. ((dropped res.scope res.key s, w), none)

abbrev pub fake_store : Store FakeStore
fake_store = record { begin = fake_begin; finish = fake_finish; cancel = fake_cancel }
