-- ===== src/Examples/Chains.antt =====
-- An audit log.
use iag_finance.Base.{ℕ, suc, String, ◌≡◌, ◌↔◌, refl, true, List, [], ◌∷◌, ◌++◌, concat, arith}
use iag_finance.Calendar.{truncate_micro}
use iag_finance.Store.{AuditEvent}
use iag_finance.Audit.{append_chain, verify, verify_from}
use iag_finance.Audit.Chain.{oldest_first, IsIntact, append_chain-verify, verify-IsIntact}
use iag_finance.Audit.Chain.Tampering.{with_actor, with_type, verify-shift}
use iag_finance.Examples.Data.{ctx, empty_store}

truncate_micro-truncate_micro : (t : ℕ) → truncate_micro (truncate_micro t) ≡ truncate_micro t
unfolding truncate_micro
truncate_micro-truncate_micro t = omega arith

empty_valid : (verify ctx (oldest_first empty_store.audit)).valid ≡ true
unfolding verify verify_from oldest_first
empty_valid = refl

append_chain-verify_example :
    ((verify ctx (
        oldest_first
          (append_chain (record ctx { now = 7 }) "ann" "post" "m" empty_store).1.audit)).valid
      ≡ true)
    × ((verify ctx (
          oldest_first
            (append_chain (record ctx { now = 7 }) "ann" "post" "m" empty_store).1.audit)).count
        ≡ suc (verify ctx (oldest_first empty_store.audit)).count)
    × IsIntact ctx (append_chain (record ctx { now = 7 }) "ann" "post" "m" empty_store).1.audit
append_chain-verify_example =
    append_chain-verify ctx 7 "ann" "post" "m" empty_store truncate_micro-truncate_micro empty_valid

abbrev event : AuditEvent
event = record {
  id = 1;
  ts = 0;
  actor = "ann|x";
  event_type = "post";
  message = "m";
  prev_hash = "GENESIS";
  hash = "t|ann|x|post|m|GENESIS";
}

-- The actor and the type have traded text, and the hash is the same.
abbrev shifted : AuditEvent
shifted = record event { actor = "ann"; event_type = "x|post" }

abbrev next_event : AuditEvent
next_event = record {
  id = 2;
  ts = 0;
  actor = "bob";
  event_type = "post";
  message = "n";
  prev_hash = "t|ann|x|post|m|GENESIS";
  hash = "t|bob|post|n|t|ann|x|post|m|GENESIS";
}

verify-IsIntact_example :
    ((verify ctx (oldest_first (next_event ∷ (event ∷ [])))).valid ≡ true)
    ↔ IsIntact ctx (next_event ∷ (event ∷ []))
verify-IsIntact_example = verify-IsIntact ctx (next_event ∷ (event ∷ []))

verify-shift_example :
    verify ctx ([] ++ (with_type "ann" "x" event ∷ (next_event ∷ [])))
    ≡ verify ctx ([] ++ (with_actor "ann" "x" event ∷ (next_event ∷ [])))
verify-shift_example = verify-shift ctx [] (next_event ∷ []) "ann" "x" event
