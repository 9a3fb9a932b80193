-- ===== src/Assets/Lines.antt =====
-- The lines of a disposal: BookAssetDisposalSubledger of internal/repository/fixed_assets.go and
-- BookAssetDisposal of internal/ledger/assetdisposal.go.
pub mod Balance
use iag_finance.Base.{ℕ, ◌+◌, String, Bool, none, List, [], ◌∷◌, ◌++◌, if◌then◌else◌, concat}
use iag_finance.Decimal.{Decimal, nought, sub, neg, is_positive, is_negative}
use iag_finance.Store.{LineInput, ResolvedLine, Result, ok, err, Account}
use iag_finance.Ledger.Lines.{cons_result}
use iag_finance.Revenue.Schedules.{account_id_by_code, plain_line}

-- A line that is wanted: code, debit, credit, memo.
abbrev pub DisposalLine : Type 0 → Type 0
DisposalLine D = String × D × D × String

abbrev pub line_if : {D : Type 0} → Bool → DisposalLine D → List (DisposalLine D)
line_if c l = if c then l ∷ [] else []

module _ {D : Type 0} ⦃dec : Decimal D⦄ where
  -- The gain or the loss on the net book value.
  unfoldable pub net_lines : D → List (DisposalLine D)
  net_lines net =
      if is_positive net
      then ("4200", nought, net, "Gain on disposal") ∷ []
      else if is_negative net
      then ("5200", neg net, nought, "Loss on disposal") ∷ []
      else []

  unfoldable pub disposal_lines : String → D → D → D → List (DisposalLine D)
  disposal_lines ref proceeds cost accumulated =
      line_if (is_positive proceeds) ("1000", proceeds, nought, concat "Disposal proceeds " ref)
      ++ (line_if (is_positive accumulated)
            ("1510", accumulated, nought, concat "Reverse accumulated depreciation " ref)
          ++ (line_if (is_positive cost)
                ("1500", nought, cost, concat "De-recognise asset cost " ref)
              ++ net_lines (sub proceeds (sub cost accumulated))))

  abbrev pub numbered : Result ℕ → ℕ → D → D → String → Result (ResolvedLine D)
  numbered (ok account) order debit credit memo = ok (plain_line account debit credit memo order)
  numbered (err e) order debit credit memo = err e

  -- The closure `add`, for every line in turn.
  unfoldable pub add_lines :
      List Account → ℕ → List (DisposalLine D) → Result (List (ResolvedLine D))
  add_lines accounts order [] = ok []
  add_lines accounts order ((code, debit, credit, memo) ∷ ls) =
      cons_result (numbered (account_id_by_code code accounts) order debit credit memo)
        (add_lines accounts (order + 1) ls)

  abbrev pub input_line : DisposalLine D → LineInput D
  input_line (code, debit, credit, memo) = record {
    account_code = code;
    debit = debit;
    credit = credit;
    memo = memo;
    cost_center_id = none;
    project_id = none;
  }

  unfoldable pub input_lines : List (DisposalLine D) → List (LineInput D)
  input_lines [] = []
  input_lines (l ∷ ls) = input_line l ∷ input_lines ls

  -- What is booked for an asset that the register does not know.
  unfoldable pub fallback_lines : String → D → D → List (DisposalLine D)
  fallback_lines tag proceeds book_value =
      line_if (is_positive proceeds) ("1000", proceeds, nought, concat "Disposal proceeds " tag)
      ++ (line_if (is_positive book_value)
            ("1500", nought, book_value, concat "Asset de-recognition " tag)
          ++ net_lines (sub proceeds book_value))
