-- ===== src/Store/Calls.antt =====
-- Service calls: state and errors. An error inside a transaction rolls the tables back, but a
-- sequence keeps the numbers it has handed out.
use iag_finance.Base.{Bool, Option, none, some, if◌then◌else◌}
use iag_finance.Store.Tables.{Store}

pub data Error : Type 0 where
  unbalanced_entry empty_entry invalid_status duplicate_event account_not_found : Error
  period_closed unnatural_side not_reversible entry_not_found not_draft period_has_drafts : Error
  open_item_not_found payment_exceeds currency_mismatch no_rate original_not_found : Error
  adjustment_too_large approval_not_found approval_forbidden approval_conflict : Error
  unknown_target_type year_has_drafts nothing_to_close invalid_adjustment : Error
  check_violation unique_violation payment_missing : Error
  invalid_total schedule_exists schedule_not_found obligation_satisfied : Error
  invalid_lease lease_exists lease_not_found invalid_asset asset_exists : Error
  asset_not_found asset_inactive no_impairment duplicate_event_repo : Error
  no_variance match_exception_not_found : Error

pub data Result (A : Type 0) : Type 0 where
  ok : A → Result A
  err : Error → Result A

abbrev pub Action : Type 0 → Type 0 → Type 0
Action D A = Store D → Result A × Store D

module _ {D A : Type 0} where
  abbrev pub pure : A → Action D A
  pure a s = (ok a, s)

  abbrev pub raise : Error → Action D A
  raise e s = (err e, s)

  abbrev pub gets : (Store D → A) → Action D A
  gets f s = (ok (f s), s)

  -- A missing value is the error `e`.
  abbrev pub or_raise : Option A → Error → Action D A
  or_raise none e = raise e
  or_raise (some a) _ = pure a

  -- A result that was computed without the store.
  abbrev pub lift : Result A → Action D A
  lift r s = (r, s)

  abbrev pub roll_back : Store D → Result A × Store D → Result A × Store D
  roll_back s (ok a, t) = (ok a, t)
  roll_back s (err e, t) = (err e, record s { next_number = t.next_number })

  -- `pool.Begin`, `defer tx.Rollback`, `tx.Commit`
  abbrev pub transaction : Action D A → Action D A
  transaction m s = roll_back s (m s)

module _ {D : Type 0} where
  abbrev pub modify : (Store D → Store D) → Action D (Unit {0})
  modify f s = (ok tt, f s)

  abbrev pub raise_if : Bool → Error → Action D (Unit {0})
  raise_if c e s = (if c then err e else ok tt, s)

infixl 5 ◌>>=◌ ◌>>◌
abbrev pub ◌>>=◌ : {D A B : Type 0} → Action D A → (A → Action D B) → Action D B
◌>>=◌ m f s = let (r, t) = m s in elim r [ ok a ↦ f a t | err e ↦ (err e, t) ]

abbrev pub ◌>>◌ : {D B : Type 0} → Action D (Unit {0}) → Action D B → Action D B
m >> k = m >>= λ _. k

module _ {D A B : Type 0} where
  -- What two actions in a row keep, if each of them does.
  pub bind-keeps :
      (P : Store D → Type 0) (m : Action D A) (k : A → Action D B) (s : Store D)
      → P (m s).1
      → ((a : A) (t : Store D) → P t → P (k a t).1)
      → P ((m >>= k) s).1
  bind-keeps P m k s h next = by_result (m s) h
    where
      by_result : (r : Result A × Store D) → P r.1 → P (((λ _. r) >>= k) s).1
      by_result (ok a, t) j = next a t j
      by_result (err e, t) j = j
