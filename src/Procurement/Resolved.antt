-- ===== src/Procurement/Resolved.antt =====
-- Exceptions of the three-way match that were resolved.
use iag_finance.Base.{String, ◌≡◌, false, Option, none, some, List, [], ◌∷◌, if◌then◌else◌}
use iag_finance.Decimal.{Decimal}
use iag_finance.Store.{MatchType, MatchException, Store}
use iag_finance.Procurement.Matching.{is_keyed}

-- The row of a key.
unfoldable pub find_exception : String → MatchType → List MatchException → Option MatchException
find_exception po type [] = none
find_exception po type (e ∷ es) = if is_keyed po type e then some e else find_exception po type es

abbrev pub IsResolved : String → MatchType → MatchException → List MatchException → Type 0
IsResolved po type e es = (find_exception po type es ≡ some e) × (e.unresolved ≡ false)
