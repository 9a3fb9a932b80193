-- ===== src/Examples/Data.antt =====
-- Accounts, a context and an empty store.
use iag_finance.Base.{ℕ, ◌*◌, String, true, false, Option, none, some, List, [], ◌∷◌}
use iag_finance.Base.Int.{ℤ, pos}
use iag_finance.Calendar.{truncate_micro}
use iag_finance.Store.{
  Account, asset, Store, Context, LineInput, JournalLine, JournalEntry, EntryStatus, draft, posted,
  AuditInfo,
}

abbrev pub units : ℕ → ℤ
units n = pos (n * 1_000_000)

abbrev pub ctx : Context
ctx = record {
  now = 86_400_000_000_000;
  entity = 0;
  base_currency = "UGX";
  sha256_hex = λ s. s;
  show_time = λ _. "t";
  stored_time = truncate_micro;
  show_date = λ _. "d";
  show_id = λ _. "u";
  show_number = λ _. "n";
}

abbrev pub account : ℕ → String → Account
account id code = record {
  id = id;
  code = code;
  account_type = asset;
  active = true;
  restrict_to_natural_side = false;
}

abbrev pub accounts : List Account
accounts =
    account 1 "1000"
    ∷ account 2 "1100"
    ∷ account 3 "2000"
    ∷ account 4 "2300"
    ∷ account 5 "4000"
    ∷ account 6 "7200"
    ∷ account 7 "7210"
    ∷ []

abbrev pub empty_store : Store ℤ
empty_store = record {
  accounts = accounts;
  cost_centers = [];
  projects = [];
  entries = [];
  processed = [];
  periods = [];
  audit = [];
  ar_items = [];
  ap_items = [];
  payments = [];
  rates = [];
  outbox = [];
  adjustments = [];
  approvals = [];
  tiers = [];
  decisions = [];
  accruals = [];
  match_exceptions = [];
  match_tolerance = none;
  tax_codes = [];
  schedules = [];
  schedule_lines = [];
  obligations = [];
  leases = [];
  lease_lines = [];
  assets = [];
  depreciation = [];
  impairments = [];
  revaluations = [];
  next_id = 10;
  next_number = 1;
}

abbrev pub line_input : String → ℤ → ℤ → LineInput ℤ
line_input code debit credit = record {
  account_code = code;
  debit = debit;
  credit = credit;
  memo = "";
  cost_center_id = none;
  project_id = none;
}

abbrev pub two_lines : List (LineInput ℤ)
two_lines = line_input "1000" (units 5) (pos 0) ∷ line_input "4000" (pos 0) (units 5) ∷ []

abbrev pub stored_line : ℕ → ℤ → ℤ → JournalLine ℤ
stored_line account debit credit = record {
  account_id = account;
  debit = debit;
  credit = credit;
  memo = "";
  line_order = 0;
  currency = "UGX";
  debit_base = debit;
  credit_base = credit;
  cost_center_id = none;
  project_id = none;
}

abbrev pub stored_lines : List (JournalLine ℤ)
stored_lines = stored_line 1 (units 5) (pos 0) ∷ stored_line 5 (pos 0) (units 5) ∷ []

abbrev pub entry : ℕ → EntryStatus → JournalEntry ℤ
entry id status = record {
  id = id;
  entry_number = id;
  description = "sale";
  status = status;
  source_event_id = none;
  source_service = some "pos";
  correlation_id = some "doc";
  accounting_date = 0;
  reverses_entry_id = none;
  posted_at = none;
  created_by = none;
  entity_id = 0;
  counterparty_entity_id = none;
  lines = stored_lines;
}

-- A posted entry and a draft.
abbrev pub ledger : Store ℤ
ledger = record empty_store { entries = entry 2 draft ∷ entry 1 posted ∷ [] }

abbrev pub audit_info : Option AuditInfo
audit_info = some (record { actor = "ann"; event_type = "test"; message = "m" })
