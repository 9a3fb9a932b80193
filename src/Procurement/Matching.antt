-- ===== src/Procurement/Matching.antt =====
-- The three-way match: internal/repository/threewaymatch.go and internal/ledger/threewaymatch.go.
use iag_finance.Base.{
  ℕ, ◌+◌, String, Bool, true, false, not, ◌&&◌, ◌||◌, Option, none, some, List, [], ◌∷◌,
  if◌then◌else◌, str_eq, concat, ◌==◌, is_some,
}
use iag_finance.Calendar.{Time}
use iag_finance.Decimal.{
  Decimal, nought, from_int, sub, neg, abs, mul, div, is_zero, is_positive, is_negative,
  greater_than, to_string,
}
use iag_finance.Store.{
  Accrual, MatchStatus, match_open, match_matched, match_variance, match_pending, MatchType,
  orphan_invoice, over_invoice, price_variance, qty_variance, MatchException, JournalEntry,
  ResolvedLine, CreateJournalParams, AuditInfo, Store, Context, Action, no_variance,
  match_exception_not_found, gets, modify, raise_if, or_raise, ◌>>=◌, ◌>>◌,
}
use iag_finance.Ledger.Booking.{book_posted_entry}
use iag_finance.Ledger.Entries.{actor_or_system}
use iag_finance.Ledger.Periods.{guard_open}
use iag_finance.Revenue.Schedules.{account_of, plain_line}
use iag_finance.Procurement.Accruals.{find_accrual}

-- type = $2
unfoldable pub is_type : MatchType → MatchType → Bool
is_type orphan_invoice orphan_invoice = true
is_type over_invoice over_invoice = true
is_type price_variance price_variance = true
is_type qty_variance qty_variance = true
is_type _ _ = false

-- The unique key (po_ref, type).
abbrev pub is_keyed : String → MatchType → MatchException → Bool
is_keyed po type e = str_eq e.po_ref po && is_type e.exception_type type

abbrev pub with_detail : String → MatchException → MatchException
with_detail detail e = if e.unresolved then record e { detail = detail } else e

-- upsertMatchException, a new row with `id`.
unfoldable pub upsert_match_exception :
    ℕ → String → MatchType → String → List MatchException → List MatchException
upsert_match_exception id po type detail [] =
    (record { id = id; po_ref = po; exception_type = type; detail = detail; unresolved = true })
    ∷ []
upsert_match_exception id po type detail (e ∷ es) =
    if is_keyed po type e
    then with_detail detail e ∷ es
    else e ∷ upsert_match_exception id po type detail es

-- UPDATE match_exceptions SET status = 'resolved' WHERE po_ref = $1 AND status = 'open'
unfoldable pub resolve_all : String → List MatchException → List MatchException
resolve_all po [] = []
resolve_all po (e ∷ es) =
    (if str_eq e.po_ref po && e.unresolved then record e { unresolved = false } else e)
    ∷ resolve_all po es

unfoldable pub count_open : List MatchException → ℕ
count_open [] = 0
count_open (e ∷ es) = (if e.unresolved then 1 else 0) + count_open es

unfoldable pub find_open : ℕ → List MatchException → Option MatchException
find_open id [] = none
find_open id (e ∷ es) = if (e.id == id) && e.unresolved then some e else find_open id es

unfoldable pub resolve_one : ℕ → List MatchException → List MatchException
resolve_one id [] = []
resolve_one id (e ∷ es) =
    (if (e.id == id) && e.unresolved then record e { unresolved = false } else e)
    ∷ resolve_one id es

module _ {D : Type 0} ⦃dec : Decimal D⦄ where
  -- MatchTolerance, with its default of 0.02.
  unfoldable pub allowed_tolerance : Option D → D
  allowed_tolerance none = div (from_int 2) (from_int 100)
  allowed_tolerance (some pct) = pct

  abbrev pub residual : Accrual D → D
  residual a = sub a.accrued a.cleared

  abbrev pub value_limit : D → Accrual D → D
  value_limit tolerance a = abs (mul a.accrued tolerance)

  abbrev pub has_value_variance : D → Accrual D → Bool
  has_value_variance tolerance a = greater_than (abs (residual a)) (value_limit tolerance a)

  abbrev pub quantity_delta : Accrual D → D
  quantity_delta a = sub a.qty_received a.qty_invoiced

  abbrev pub quantity_limit : D → Accrual D → D
  quantity_limit tolerance a = abs (mul a.qty_received tolerance)

  abbrev pub has_quantity_variance : D → Accrual D → Bool
  has_quantity_variance tolerance a =
      is_positive a.qty_received
      && (is_positive a.qty_invoiced
          && greater_than (abs (quantity_delta a)) (quantity_limit tolerance a))

  abbrev pub is_orphan : Accrual D → Bool
  is_orphan a = is_positive a.cleared && is_zero a.accrued

  abbrev pub is_two_sided : Accrual D → Bool
  is_two_sided a = is_positive a.accrued && is_positive a.cleared

  -- The status that a pass stamps.
  unfoldable pub match_of : D → Accrual D → MatchStatus
  match_of tolerance a =
      if is_orphan a
      then match_pending
      else if is_two_sided a
      then (if has_value_variance tolerance a || has_quantity_variance tolerance a
          then match_variance
          else match_matched)
      else match_open

  abbrev pub four_part : String → D → String → D → String → D → D → String
  four_part a x b y c z limit = concat a (
      concat (to_string x) (
        concat b (
          concat (to_string y) (
            concat c
              (concat (to_string z) (concat ", tolerance " (concat (to_string limit) ")")))))))

  abbrev pub raise_value : ℕ → D → Accrual D → List MatchException → List MatchException
  raise_value id tolerance a es =
      if has_value_variance tolerance a
      then upsert_match_exception id a.po_ref
          (if is_negative (residual a) then over_invoice else price_variance)
          (four_part "accrued " a.accrued " vs cleared " a.cleared " (residual " (residual a)
            (value_limit tolerance a))
          es
      else es

  abbrev pub raise_quantity : ℕ → D → Accrual D → List MatchException → List MatchException
  raise_quantity id tolerance a es =
      if has_quantity_variance tolerance a
      then upsert_match_exception id a.po_ref qty_variance
          (four_part "received " a.qty_received " vs invoiced " a.qty_invoiced " (delta "
            (quantity_delta a) (quantity_limit tolerance a))
          es
      else es

  -- The exceptions after one accrual was classified; `id` and its successor are for new rows.
  unfoldable pub raise_exceptions : ℕ → D → Accrual D → List MatchException → List MatchException
  raise_exceptions id tolerance a es =
      if is_orphan a
      then upsert_match_exception id a.po_ref orphan_invoice
          "invoice cleared with no goods-receipt accrual" es
      else if is_two_sided a
      then (if has_value_variance tolerance a || has_quantity_variance tolerance a
          then raise_quantity (id + 1) tolerance a (raise_value id tolerance a es)
          else resolve_all a.po_ref es)
      else es

  -- UPDATE grni_accruals SET match_status = $2 WHERE po_ref = $1
  unfoldable pub stamp_match : String → MatchStatus → List (Accrual D) → List (Accrual D)
  stamp_match po status [] = []
  stamp_match po status (a ∷ as') =
      (if str_eq a.po_ref po then record a { match_status = status } else a)
      ∷ stamp_match po status as'

  -- One turn of the loop.
  abbrev pub classify : D → Accrual D → Store D → Store D
  classify tolerance a s = record s {
    match_exceptions = raise_exceptions s.next_id tolerance a s.match_exceptions;
    accruals = stamp_match a.po_ref (match_of tolerance a) s.accruals;
    next_id = s.next_id + 2;
  }

  unfoldable pub classify_all : D → List (Accrual D) → Store D → Store D
  classify_all tolerance [] s = s
  classify_all tolerance (a ∷ as') s = classify_all tolerance as' (classify tolerance a s)

  -- DetectMatchExceptions
  unfoldable pub detect_match_exceptions : Action D ℕ
  detect_match_exceptions = do
    tolerance ← gets (λ s. allowed_tolerance s.match_tolerance)
    accruals ← gets (λ s. s.accruals)
    modify (classify_all tolerance accruals)
    gets (λ s. count_open s.match_exceptions)

  -- ResolveMatchException
  unfoldable pub resolve_match_exception : ℕ → Action D (Unit {0})
  resolve_match_exception id = do
    raise_if (not (← gets (λ s. is_some (find_open id s.match_exceptions))))
        match_exception_not_found
    modify (λ s. record s { match_exceptions = resolve_one id s.match_exceptions })

  -- SET cleared = accrued, match_status = 'matched'
  unfoldable pub equalise : String → List (Accrual D) → List (Accrual D)
  equalise po [] = []
  equalise po (a ∷ as') =
      (if str_eq a.po_ref po
        then record a { cleared = a.accrued; match_status = match_matched }
        else a)
      ∷ equalise po as'

  unfoldable pub variance_lines : String → ℕ → ℕ → D → List (ResolvedLine D)
  variance_lines po clearing ppv left =
      if is_positive left
      then plain_line clearing left nought (concat "Clear GR/IR variance " po) 0
        ∷ plain_line ppv nought left "Purchase price variance" 1
        ∷ []
      else plain_line ppv (neg left) nought "Purchase price variance" 0
        ∷ plain_line clearing nought (neg left) (concat "Clear GR/IR variance " po) 1
        ∷ []

  abbrev pub variance_params :
      String → String → String → Time → List (ResolvedLine D) → CreateJournalParams D
  variance_params po event_id currency posted_at lines = record {
    description = concat "GR/IR variance write-off — PO " po;
    source_event_id = some event_id;
    source_service = some "iag.finance";
    correlation_id = none;
    created_by = none;
    accounting_date = some posted_at;
    currency = currency;
    fx_rate = nought;
    lines = lines;
    counterparty_entity_id = none;
  }

  abbrev pub close_variance : String → ℕ → Action D (Unit {0})
  close_variance po entry = modify (λ s. record s {
    accruals = equalise po s.accruals;
    match_exceptions = resolve_all po s.match_exceptions;
  })

module _ {D : Type 0} ⦃dec : Decimal D⦄ (c : Context) where
  -- WriteOffGRNIVariance
  unfoldable pub write_off_grni_variance :
      String → Time → Option AuditInfo → Action D (Option (JournalEntry D))
  write_off_grni_variance po posted_at audit = do
    a ← or_raise (← gets (λ s. find_accrual po s.accruals)) no_variance
    raise_if (is_zero (residual a)) no_variance
    let currency = if str_eq a.currency "" then c.base_currency else a.currency
    clearing ← account_of "2150"
    ppv ← account_of "5150"
    let event_id = concat "grir.variance:" (concat po (concat ":" (c.show_date posted_at)))
    book_posted_entry c
        (variance_params po event_id currency posted_at
          (variance_lines po clearing ppv (residual a)))
        event_id "finance.grir.variance" posted_at (close_variance po) audit

  -- WriteOffMatchVariance
  unfoldable pub write_off_match_variance : String → String → Action D (Option (JournalEntry D))
  write_off_match_variance po actor = do
    guard_open c.now
    write_off_grni_variance po c.now (
        some (record {
          actor = actor_or_system actor;
          event_type = "finance.grir.variance";
          message = concat "write off GR/IR variance PO " po;
        }))
