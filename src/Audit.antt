-- ===== src/Audit.antt =====
-- The audit hash chain: internal/chainaudit/audit.go and internal/hashchain/fnv.go.
pub mod Chain
use iag_finance.Base.{
  ℕ, ◌+◌, String, Bool, true, false, not, Option, none, some, List, [], ◌∷◌, if◌then◌else◌, str_eq,
  concat,
}
use iag_finance.Calendar.{truncate_micro}
use iag_finance.Store.{AuditEvent, AuditInfo, Context, Action, pure}

-- hashchain.EventHash, whose SimpleHash is the hexadecimal SHA-256 digest.
unfoldable pub event_hash : Context → String → String → String → String → String → String
event_hash c ts actor event_type message prev_hash = c.sha256_hex (
    concat ts (
      concat "|" (
        concat actor
          (concat "|" (concat event_type (concat "|" (concat message (concat "|" prev_hash))))))))

abbrev pub genesis : String
genesis = "GENESIS"

-- `SELECT event_hash ... ORDER BY id DESC LIMIT 1`
unfoldable pub head_hash : List AuditEvent → String
head_hash [] = genesis
head_hash (e ∷ es) = e.hash

-- The event that AppendChainTx returns; its time has no nanoseconds.
unfoldable pub chained : Context → ℕ → String → String → String → String → AuditEvent
unfolding event_hash
chained c id prev_hash actor event_type message =
    let ts = truncate_micro c.now in
    record {
      id = id;
      ts = ts;
      actor = actor;
      event_type = event_type;
      message = message;
      prev_hash = prev_hash;
      hash = event_hash c (c.show_time ts) actor event_type message prev_hash;
    }

-- The row that is inserted, as it is read back: its time has been through a column.
abbrev pub stored : Context → AuditEvent → AuditEvent
stored c e = record e { ts = c.stored_time e.ts }

module _ {D : Type 0} (c : Context) where
  unfoldable pub append_chain : String → String → String → Action D AuditEvent
  unfolding chained head_hash
  append_chain actor event_type message s =
      let e = chained c s.next_id (head_hash s.audit) actor event_type message in
      pure e (record s { audit = stored c e ∷ s.audit; next_id = s.next_id + 1 })

  -- repository.appendAudit: nothing is chained for no info or no actor.
  unfoldable pub append_audit : Option AuditInfo → Action D (Unit {0})
  unfolding append_chain
  append_audit none s = pure tt s
  append_audit (some a) s =
      if str_eq a.actor ""
      then pure tt s
      else pure tt (append_chain a.actor a.event_type a.message s).1

pub data Reason : Type 0 where
  prev_hash_mismatch event_hash_mismatch : Reason

pub record VerifyResult : Type 0 where
  pub valid : Bool
  pub count : ℕ
  pub broken_at : Option ℕ
  pub reason : Option Reason

-- The loop of Verify, over the events from the oldest to the newest.
unfoldable pub verify_from : Context → String → ℕ → List AuditEvent → VerifyResult
unfolding event_hash
verify_from c prev count [] = record {
  valid = true;
  count = count;
  broken_at = none;
  reason = none;
}
verify_from c prev count (e ∷ es) =
    let rest = verify_from c e.hash (count + 1) es in
    let want = event_hash c (c.show_time e.ts) e.actor e.event_type e.message e.prev_hash in
    if not (str_eq e.prev_hash prev)
    then record {
      valid = false;
      count = count + 1;
      broken_at = some e.id;
      reason = some prev_hash_mismatch;
    }
    else if not (str_eq want e.hash)
    then record {
      valid = false;
      count = count + 1;
      broken_at = some e.id;
      reason = some event_hash_mismatch;
    }
    else rest

unfoldable pub verify : Context → List AuditEvent → VerifyResult
unfolding verify_from
verify c oldest_first = verify_from c genesis 0 oldest_first
