-- ===== src/Audit/Chain.antt =====
-- What the hash chain of the audit log keeps.
pub mod Tampering
use iag_finance.Base.{
  ℕ, suc, ◌+◌, String, ◌≡◌, ◌≢◌, refl, ◌⊎◌, inl, inr, true, List, [], ◌∷◌, ◌++◌, arith, str_eq,
  str_eq_refl, str_eq_iff, concat, sym, ap, ◌∙◌, ◌↔◌, Bool-cases,
}
use text.Mathlib.TextLemmas.{append_assoc}
use iag_finance.Calendar.{truncate_micro}
use iag_finance.Store.{AuditEvent, Context, Store}
use iag_finance.Audit.{event_hash, genesis, head_hash, chained, append_chain, verify_from, verify}

-- The table holds the newest event first, and Verify reads it by ascending id.
unfoldable pub oldest_first : List AuditEvent → List AuditEvent
oldest_first [] = []
oldest_first (e ∷ es) = oldest_first es ++ (e ∷ [])

-- The hash after a list of events.
unfoldable last_hash : String → List AuditEvent → String
last_hash prev [] = prev
last_hash prev (e ∷ es) = last_hash e.hash es

last_hash-snoc :
    (prev : String) (es : List AuditEvent) (e : AuditEvent)
    → last_hash prev (es ++ (e ∷ [])) ≡ e.hash
unfolding last_hash
last_hash-snoc prev [] e = refl
last_hash-snoc prev (x ∷ es) e = last_hash-snoc x.hash es e

last_hash-oldest_first : (es : List AuditEvent) → last_hash genesis (oldest_first es) ≡ head_hash es
unfolding last_hash oldest_first head_hash
last_hash-oldest_first [] = refl
last_hash-oldest_first (e ∷ es) = last_hash-snoc genesis (oldest_first es) e

verify_from-snoc :
    (c : Context) (prev : String) (n : ℕ) (es : List AuditEvent) (e : AuditEvent)
    → (verify_from c prev n es).valid ≡ true
    → e.prev_hash ≡ last_hash prev es
    → event_hash c (c.show_time e.ts) e.actor e.event_type e.message e.prev_hash ≡ e.hash
    → ((verify_from c prev n (es ++ (e ∷ []))).valid ≡ true)
      × ((verify_from c prev n (es ++ (e ∷ []))).count ≡ suc (verify_from c prev n es).count)
unfolding verify_from last_hash
verify_from-snoc c prev n [] e ok_es follows hashed =
    ground (arith, str_eq_iff e.prev_hash prev, str_eq_refl e.hash, hashed, str_eq_refl prev)
verify_from-snoc c prev n (x ∷ es) e ok_es follows hashed =
    ground (arith, verify_from-snoc c x.hash (n + 1) es e)

-- The newest event is linked to the head of the log before it, and has the hash of its fields.
abbrev pub IsLinked : Context → AuditEvent → List AuditEvent → Type 0
IsLinked c e es =
    (e.prev_hash ≡ head_hash es)
    × (event_hash c (c.show_time e.ts) e.actor e.event_type e.message e.prev_hash ≡ e.hash)

-- Every event is linked to the ones before it; the newest event stands first.
unfoldable pub IsIntact : Context → List AuditEvent → Type 0
IsIntact c [] = Unit
IsIntact c (e ∷ es) = IsLinked c e es × IsIntact c es

last_of_valid :
    (c : Context) (prev : String) (n : ℕ) (es : List AuditEvent) (e : AuditEvent)
    → (verify_from c prev n (es ++ (e ∷ []))).valid ≡ true
    → ((verify_from c prev n es).valid ≡ true)
      × (e.prev_hash ≡ last_hash prev es)
      × (event_hash c (c.show_time e.ts) e.actor e.event_type e.message e.prev_hash ≡ e.hash)
unfolding verify_from last_hash
last_of_valid c prev n [] e h = ground (
  arith,
  str_eq_iff e.prev_hash prev,
  str_eq_iff (event_hash c (c.show_time e.ts) e.actor e.event_type e.message e.prev_hash) e.hash,
)
last_of_valid c prev n (x ∷ es) e h = ground (arith, h, last_of_valid c x.hash (n + 1) es e)

verify_sound :
    (c : Context) (es : List AuditEvent) → (verify c (oldest_first es)).valid ≡ true → IsIntact c es
unfolding verify oldest_first IsIntact
verify_sound c [] h = tt
verify_sound c (e ∷ es) h =
    let (before, link, hashed) = last_of_valid c genesis 0 (oldest_first es) e h in
    ((link ∙ last_hash-oldest_first es, hashed), verify_sound c es before)

verify_complete :
    (c : Context) (es : List AuditEvent) → IsIntact c es → (verify c (oldest_first es)).valid ≡ true
unfolding verify verify_from oldest_first IsIntact
verify_complete c [] h = refl
verify_complete c (e ∷ es) ((link, hashed), before) =
    (verify_from-snoc c genesis 0 (oldest_first es) e (verify_complete c es before)
      (link ∙ sym (last_hash-oldest_first es)) hashed).0

-- Verify accepts a log exactly if each of its events is linked to the ones before it: the first to
-- the genesis, each later one to the hash of its predecessor, and the hash of each is that of its
-- fields.
pub verify-IsIntact :
    (c : Context) (es : List AuditEvent)
    → ((verify c (oldest_first es)).valid ≡ true) ↔ IsIntact c es
verify-IsIntact c es = (verify_sound c es, verify_complete c es)

module _ {D : Type 0} (c : Context) where
  -- As long as a timestamptz column returns times of whole microseconds as they were written,
  -- appending an event, at any time, to a log that verifies gives a log that verifies, with one
  -- event more, in which every event is linked to the ones before it.
  pub append_chain-verify :
      (at : ℕ) (actor event_type message : String) (s : Store D)
      → ((t : ℕ) → c.stored_time (truncate_micro t) ≡ truncate_micro t)
      → (verify c (oldest_first s.audit)).valid ≡ true
      → ((verify c (
            oldest_first
              (append_chain (record c { now = at }) actor event_type message s).1.audit)).valid
          ≡ true)
        × ((verify c (
              oldest_first
                (append_chain (record c { now = at }) actor event_type message s).1.audit)).count
            ≡ suc (verify c (oldest_first s.audit)).count)
        × IsIntact c (append_chain (record c { now = at }) actor event_type message s).1.audit
  unfolding verify append_chain chained event_hash oldest_first
  append_chain-verify at actor event_type message s micro h =
      let (valid, count) =
        verify_from-snoc c genesis 0 (oldest_first s.audit) _ h
          (sym (last_hash-oldest_first s.audit))
          (ap
            (λ t. c.sha256_hex (
              concat (c.show_time t) (
                concat "|" (
                  concat actor (
                    concat "|" (
                      concat event_type
                        (concat "|" (concat message (concat "|" (head_hash s.audit))))))))))
            (micro at)) in
      (valid, count, verify_sound c _ valid)
