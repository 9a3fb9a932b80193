-- ===== src/Ledger/Entries/Lookup.antt =====
-- Look-ups by id after an update, a deletion and an insertion.
use iag_finance.Base.{
  ℕ, suc, ◌<◌, ◌≡◌, refl, true, false, Option, none, some, List, [], ◌∷◌, arith, ◌==◌,
  if◌then◌else◌,
}
use iag_finance.Store.{JournalEntry}
use iag_finance.Ledger.Booking.{entry_by_id}
use iag_finance.Ledger.Entries.{update_entry, delete_entry}

module _ {D : Type 0} where
  abbrev pub option_map :
      (JournalEntry D → JournalEntry D) → Option (JournalEntry D) → Option (JournalEntry D)
  option_map f none = none
  option_map f (some e) = some (f e)

  pub entry_by_id-update :
      (id k : ℕ) (f : JournalEntry D → JournalEntry D) (es : List (JournalEntry D))
      → ((e : JournalEntry D) → (f e).id ≡ e.id)
      → entry_by_id id (update_entry k f es)
        ≡ (if id == k then option_map f (entry_by_id id es) else entry_by_id id es)
  unfolding entry_by_id update_entry
  entry_by_id-update id k f [] same = ground arith
  entry_by_id-update id k f (e ∷ es) same =
      ground (arith, same e, entry_by_id-update id k f es same)

  pub entry_by_id-delete :
      (id k : ℕ) (es : List (JournalEntry D))
      → entry_by_id id (delete_entry k es) ≡ (if id == k then none else entry_by_id id es)
  unfolding entry_by_id delete_entry
  entry_by_id-delete id k [] = ground arith
  entry_by_id-delete id k (e ∷ es) = ground (arith, entry_by_id-delete id k es)

  pub id_of_entry_by_id :
      (id : ℕ) (es : List (JournalEntry D)) {e : JournalEntry D}
      → entry_by_id id es ≡ some e
      → e.id ≡ id
  unfolding entry_by_id
  id_of_entry_by_id id [] h = cc
  id_of_entry_by_id id (x ∷ es) {e} h = ground (arith, id_of_entry_by_id id es {e = e})

  -- Newer entries have greater ids, and all are below `n`.
  abbrev pub IdsBelow : ℕ → List (JournalEntry D) → Type 0
  IdsBelow n [] = Unit
  IdsBelow n (e ∷ es) = (e.id < n) × IdsBelow e.id es

  pub entry_by_id-lt :
      (id n : ℕ) (es : List (JournalEntry D)) {e : JournalEntry D}
      → IdsBelow n es
      → entry_by_id id es ≡ some e
      → id < n
  unfolding entry_by_id
  entry_by_id-lt id n [] below h = cc
  entry_by_id-lt id n (x ∷ es) {e} below h =
      ground (arith, entry_by_id-lt id x.id es {e = e} below.1)

  pub IdsBelow-mono :
      (n m : ℕ) (es : List (JournalEntry D)) → n < suc m → IdsBelow n es → IdsBelow m es
  IdsBelow-mono n m [] h b = tt
  IdsBelow-mono n m (x ∷ es) h b = (omega arith, b.1)

  pub IdsBelow-update :
      (n k : ℕ) (f : JournalEntry D → JournalEntry D) (es : List (JournalEntry D))
      → ((e : JournalEntry D) → (f e).id ≡ e.id)
      → IdsBelow n es
      → IdsBelow n (update_entry k f es)
  unfolding update_entry
  IdsBelow-update n k f [] same b = tt
  IdsBelow-update n k f (x ∷ es) same b =
      let rest = IdsBelow-update x.id k f es same b.1 in
      elim (x.id == k) as (λ t. IdsBelow n ((if t then f x else x) ∷ update_entry k f es)) [
        | true ↦ rw (same x) (b.0, rest)
        | false ↦ (b.0, rest)
      ]

  pub IdsBelow-delete :
      (n k : ℕ) (es : List (JournalEntry D)) → IdsBelow n es → IdsBelow n (delete_entry k es)
  unfolding delete_entry
  IdsBelow-delete n k [] b = tt
  IdsBelow-delete n k (x ∷ es) b =
      let rest = IdsBelow-delete x.id k es b.1 in
      elim (x.id == k)
        as (λ t. IdsBelow n (if t then delete_entry k es else x ∷ delete_entry k es)) [
          | true ↦ IdsBelow-mono x.id n (delete_entry k es) (omega (arith, b.0)) rest
          | false ↦ (b.0, rest)
        ]

  pub update_entry-below :
      (n k : ℕ) (f : JournalEntry D → JournalEntry D) (es : List (JournalEntry D))
      → IdsBelow n es
      → n < suc k
      → update_entry k f es ≡ es
  unfolding update_entry
  update_entry-below n k f [] b h = refl
  update_entry-below n k f (x ∷ es) b h = ground (arith, update_entry-below x.id k f es b.1)

  pub delete_entry-below :
      (n k : ℕ) (es : List (JournalEntry D)) → IdsBelow n es → n < suc k → delete_entry k es ≡ es
  unfolding delete_entry
  delete_entry-below n k [] b h = refl
  delete_entry-below n k (x ∷ es) b h = ground (arith, delete_entry-below x.id k es b.1)
