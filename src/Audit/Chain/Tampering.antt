-- ===== src/Audit/Chain/Tampering.antt =====
-- What Verify shows of a log that was rewritten, and what it does not show.
use iag_finance.Base.{ℕ, ◌+◌, String, ◌≡◌, ◌≢◌, refl, List, [], ◌∷◌, ◌++◌, concat}
use text.Mathlib.TextLemmas.{append_assoc}
use iag_finance.Store.{AuditEvent, Context}
use iag_finance.Audit.{event_hash, genesis, verify_from, verify}

-- Two texts are hashed alike although they differ.
abbrev pub Collision : Context → Type 0
Collision c = (s : String) × (t : String) × (s ≢ t) × (c.sha256_hex s ≡ c.sha256_hex t)

-- The text of an event that is hashed.
abbrev pub hashed_text : Context → AuditEvent → String
hashed_text c e = concat (c.show_time e.ts) (
    concat "|" (
      concat e.actor (
        concat "|" (concat e.event_type (concat "|" (concat e.message (concat "|" e.prev_hash)))))))

-- The separator is not escaped.
event_hash-shift :
    (c : Context) (ts a b event_type message prev_hash : String)
    → event_hash c ts (concat a (concat "|" b)) event_type message prev_hash
      ≡ event_hash c ts a (concat b (concat "|" event_type)) message prev_hash
unfolding event_hash
event_hash-shift c ts a b event_type message prev_hash = simp (event_hash, append_assoc)

-- Text that moves from the end of an event's actor to the front of its type, the separator between
-- them.
abbrev pub with_actor : String → String → AuditEvent → AuditEvent
with_actor a b e = record e { actor = concat a (concat "|" b) }

abbrev pub with_type : String → String → AuditEvent → AuditEvent
with_type a b e = record e { actor = a; event_type = concat b (concat "|" e.event_type) }

verify_from-shift :
    (c : Context) (prev : String) (n : ℕ) (es later : List AuditEvent) (a b : String)
    (e : AuditEvent)
    → verify_from c prev n (es ++ (with_type a b e ∷ later))
      ≡ verify_from c prev n (es ++ (with_actor a b e ∷ later))
unfolding verify_from
verify_from-shift c prev n [] later a b e =
    rw (event_hash-shift c (c.show_time e.ts) a b e.event_type e.message e.prev_hash) refl
verify_from-shift c prev n (y ∷ es) later a b e =
    rw (verify_from-shift c y.hash (n + 1) es later a b e) refl

-- An event of any log whose actor holds a bar can have the text behind that bar moved to the front
-- of its type, with its stored hash as it was: Verify has the same result for both logs, although
-- the actor and the type of the event were rewritten.
pub verify-shift :
    (c : Context) (earlier later : List AuditEvent) (a b : String) (e : AuditEvent)
    → verify c (earlier ++ (with_type a b e ∷ later))
      ≡ verify c (earlier ++ (with_actor a b e ∷ later))
unfolding verify
verify-shift c earlier later a b e = verify_from-shift c genesis 0 earlier later a b e
