-- ===== src/Ledger/History.antt =====
-- Any history of ledger calls: what holds of the tables between two calls.
pub mod Steps
pub mod Superseding
pub mod Atomic
pub mod Frozen
pub mod Closed
pub mod Requests
pub mod Balance
use iag_finance.Base.{
  ℕ, suc, ◌+◌, ◌≤◌, ◌<◌, String, ◌≡◌, refl, Bool, true, false, Option, none, some, List, [], ◌∷◌,
  arith, Option-cases, ◌⊎◌, inl, inr, subst, ap,
}
use iag_finance.Store.{
  Action, Result, ok, err, ◌>>=◌, JournalEntry, JournalLine, EntryStatus, draft, posted, reversed,
  Store,
}
use iag_finance.Ledger.Booking.{entry_by_id}
use iag_finance.Ledger.Periods.{is_draft}
use iag_finance.Ledger.Entries.Lookup.{
  IdsBelow, IdsBelow-mono, entry_by_id-lt, IdsBelow-update, IdsBelow-delete, entry_by_id-update,
  entry_by_id-delete,
}
use iag_finance.Ledger.Entries.{update_entry, delete_entry}

-- The only way on from a posted entry is its reversal, and a reversed one stays so.
abbrev pub Later : EntryStatus → EntryStatus → Type 0
Later draft _ = Unit
Later posted draft = ⊥
Later posted _ = Unit
Later reversed reversed = Unit
Later reversed _ = ⊥

pub Later-trans : (a b c : EntryStatus) → Later a b → Later b c → is_draft a ≡ false → Later a c
Later-trans a b c h k n = ground arith

module _ {D : Type 0} where
  -- What a ledger may not lose of an entry.
  abbrev pub KeptAs : JournalEntry D → Option (JournalEntry D) → Type 0
  KeptAs e none = ⊥
  KeptAs e (some f) =
      (f.lines ≡ e.lines)
      × (f.entry_number ≡ e.entry_number)
      × (f.accounting_date ≡ e.accounting_date)
      × (f.entity_id ≡ e.entity_id)
      × (f.source_event_id ≡ e.source_event_id)
      × Later e.status f.status

  -- Every entry that is posted or reversed in `s` is still there in `t`, unchanged but for a reversal,
  -- and new entries have new ids.
  pub record Keeps (s t : Store D) : Type 0 where
    pub kept :
        (id : ℕ) (e : JournalEntry D)
        → entry_by_id id s.entries ≡ some e
        → is_draft e.status ≡ false
        → KeptAs e (entry_by_id id t.entries)
    pub ids : IdsBelow t.next_id t.entries
    pub grows : s.next_id ≤ t.next_id

  abbrev pub HasFreshIds : Store D → Type 0
  HasFreshIds s = IdsBelow s.next_id s.entries

module _ {D : Type 0} where
  pub KeptAs-refl : (e : JournalEntry D) → KeptAs e (some e)
  KeptAs-refl e = ground arith

  KeptAs-trans :
      (e f : JournalEntry D) (p : Option (JournalEntry D))
      → is_draft e.status ≡ false
      → KeptAs e (some f)
      → KeptAs f p
      → KeptAs e p
  KeptAs-trans e f none n h k = k
  KeptAs-trans e f (some g) n h k = ground (arith, Later-trans e.status f.status g.status)

  not_draft_of_Later :
      (e f : JournalEntry D)
      → is_draft e.status ≡ false
      → KeptAs e (some f)
      → is_draft f.status ≡ false
  not_draft_of_Later e f n h = ground arith

  -- A step that leaves the entries alone.
  pub Keeps-same :
      (s t : Store D) → HasFreshIds s → t.entries ≡ s.entries → s.next_id ≤ t.next_id → Keeps s t
  Keeps-same s t h same g = record {
    kept = λ id e found n. rw same (rw found (KeptAs-refl e));
    ids = rw same (IdsBelow-mono s.next_id t.next_id s.entries (omega arith) h);
    grows = g;
  }

  pub Keeps-refl : (s : Store D) → HasFreshIds s → Keeps s s
  Keeps-refl s h = Keeps-same s s h refl (omega arith)

  pub entry_by_id-older :
      (id n : ℕ) (e f : JournalEntry D) (es : List (JournalEntry D))
      → IdsBelow n es
      → e.id ≡ n
      → entry_by_id id es ≡ some f
      → entry_by_id id (e ∷ es) ≡ some f
  unfolding entry_by_id
  entry_by_id-older id n e f es below fresh found =
      ground (arith, entry_by_id-lt id n es {e = f} below found)

  -- A step that adds one entry with the next id.
  pub Keeps-add :
      (s t : Store D) (e : JournalEntry D)
      → HasFreshIds s
      → e.id ≡ s.next_id
      → t.entries ≡ e ∷ s.entries
      → s.next_id < t.next_id
      → Keeps s t
  Keeps-add s t e h fresh same g = record {
    kept = λ id f found n.
        rw same (rw (entry_by_id-older id s.next_id e f s.entries h fresh found) (KeptAs-refl f));
    ids = rw same (omega arith, rw fresh h);
    grows = omega arith;
  }

  -- The entries `ts` are `es` with one more that has the id `n`.
  abbrev pub AddsTo : List (JournalEntry D) → ℕ → List (JournalEntry D) → Type 0
  AddsTo es n [] = ⊥
  AddsTo es n (t ∷ ts) = (ts ≡ es) × (t.id ≡ n)

  -- The entries stay, or one is added that takes the next id.
  abbrev pub Adds : Store D → Store D → Type 0
  Adds s t =
      ((t.entries ≡ s.entries) × (s.next_id ≤ t.next_id))
      ⊎ (AddsTo s.entries s.next_id t.entries × (s.next_id < t.next_id))

  AddsTo-head :
      (es : List (JournalEntry D)) (n : ℕ) (ts : List (JournalEntry D))
      → AddsTo es n ts
      → (e : JournalEntry D) × (ts ≡ e ∷ es) × (e.id ≡ n)
  AddsTo-head es n [] a = elim a [ ]
  AddsTo-head es n (t ∷ ts) (same, fresh) = (t, ap (λ xs. t ∷ xs) same, fresh)

  pub Adds-Keeps : (s t : Store D) → HasFreshIds s → Adds s t → Keeps s t
  Adds-Keeps s t h (inl (same, grows)) = Keeps-same s t h same grows
  Adds-Keeps s t h (inr (adds, grows)) =
      let (e, same, fresh) = AddsTo-head s.entries s.next_id t.entries adds in
      Keeps-add s t e h fresh same grows

  -- A step that edits the entry `k` in a way that posted entries allow.
  pub Keeps-update :
      (s t : Store D) (k : ℕ) (f : JournalEntry D → JournalEntry D)
      → HasFreshIds s
      → ((e : JournalEntry D) → (f e).id ≡ e.id)
      → ((e : JournalEntry D)
          → entry_by_id k s.entries ≡ some e
          → is_draft e.status ≡ false
          → KeptAs e (some (f e)))
      → t.entries ≡ update_entry k f s.entries
      → s.next_id ≤ t.next_id
      → Keeps s t
  Keeps-update s t k f h same edits is g = record {
    kept = λ id e found n. rw is (
        rw (entry_by_id-update id k f s.entries same)
          (ground (arith, edits e, KeptAs-refl e, found)));
    ids = rw is (
        IdsBelow-update t.next_id k f s.entries same
          (IdsBelow-mono s.next_id t.next_id s.entries (omega arith) h));
    grows = g;
  }

  pub Keeps-delete :
      (s t : Store D) (k : ℕ)
      → HasFreshIds s
      → ((e : JournalEntry D) → entry_by_id k s.entries ≡ some e → is_draft e.status ≡ true)
      → t.entries ≡ delete_entry k s.entries
      → s.next_id ≤ t.next_id
      → Keeps s t
  Keeps-delete s t k h drafts is g = record {
    kept = λ id e found n.
        rw is
          (rw (entry_by_id-delete id k s.entries) (ground (arith, drafts e, KeptAs-refl e, found)));
    ids = rw is (
        IdsBelow-delete t.next_id k s.entries
          (IdsBelow-mono s.next_id t.next_id s.entries (omega arith) h));
    grows = g;
  }

  pub Keeps-trans : (s t u : Store D) → Keeps s t → Keeps t u → Keeps s u
  Keeps-trans s t u h k = record {
    kept = λ id e found n.
        kept_on id e n (Option-cases (entry_by_id id t.entries)) (h.kept id e found n);
    ids = k.ids;
    grows = omega (arith, h.grows, k.grows);
  }
    where
      kept_on :
          (id : ℕ) (e : JournalEntry D)
          → is_draft e.status ≡ false
          → (entry_by_id id t.entries ≡ none)
            ⊎ ((f : JournalEntry D) × (entry_by_id id t.entries ≡ some f))
          → KeptAs e (entry_by_id id t.entries)
          → KeptAs e (entry_by_id id u.entries)
      kept_on id e n (inl none_left) l = ground arith
      kept_on id e n (inr (f, found)) l =
          let l2 : KeptAs e (some f) = subst (KeptAs e) found l in
          KeptAs-trans e f (entry_by_id id u.entries) n l2
            (k.kept id f found (not_draft_of_Later e f n l2))
