-- ===== src/Examples/Matching.antt =====
-- A purchase order that leaves its tolerance after its exception was resolved.
use iag_finance.Base.{◌≡◌, false, some, List, [], ◌∷◌}
use iag_finance.Base.Int.{ℤ, pos}
use iag_finance.Decimal.Fixed.{fixed}
use iag_finance.Store.{Store, Accrual, MatchException, price_variance, match_matched}
use iag_finance.Examples.Data.{units, empty_store}

abbrev short : Accrual ℤ
short = record {
  po_ref = "PO1";
  currency = "UGX";
  accrued = units 100;
  cleared = units 60;
  qty_received = units 10;
  qty_invoiced = units 10;
  match_status = match_matched;
}

abbrev seen : MatchException
seen = record {
  id = 1;
  po_ref = "PO1";
  exception_type = price_variance;
  detail = "accrued 100 vs cleared 90";
  unresolved = false;
}

abbrev reviewed : Store ℤ
reviewed = record empty_store {
  accruals = short ∷ [];
  match_exceptions = seen ∷ [];
  match_tolerance = some (pos 20_000);
}
