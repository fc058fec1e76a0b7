-- ===== src/Payables/CreditForm.antt =====
-- Creation and editing of a vendor credit: `create` and `update` of `VendorCreditSerializer` of
-- apps/purchases/serializers.py, after the checks of Payables/CreditCheck.
use ghazatech_inventory_be.Prelude.{
  ℕ, ◌-◌, ◌*◌, Bool, true, false, not, Option, none, some, List, [], ◌∷◌, map, select,
  if◌then◌else◌, is_empty,
}
use ghazatech_inventory_be.Prelude.Decimal.{round_half_up}
use ghazatech_inventory_be.Prelude.Int.{pos, pos_part, ltb_ℤ}
use ghazatech_inventory_be.Prelude.Result.{Result, ok, raise_if, or_raise, ◌>>=◌, ◌>>◌}
use ghazatech_inventory_be.Numbering.{Suffix, next_sequence}
use ghazatech_inventory_be.Payables.{Share}
use ghazatech_inventory_be.Payables.BillCheck.{map_order}
use ghazatech_inventory_be.Payables.Credit.{
  CreditStatus, CreditLine, ReturnLine, VendorCredit, net_total,
}
use ghazatech_inventory_be.Payables.CreditCheck.{
  ReturnRef, CreditItemRequest, ApplicationRequest, CreditRequest, FormError, field_of,
  credit_supplier, credit_branch, credit_order, credit_errors, calculate_items,
  validate_applications,
}

-- `_save_applications`: amounts of nothing are skipped.
abbrev pub planned_shares : List ApplicationRequest → List Share
planned_shares [] = []
planned_shares (a ∷ applications) =
    let rest = planned_shares applications in
    elim a.bill [
      | none ↦ rest
      | some bill ↦
          if ltb_ℤ (pos 0) a.amount
          then record { bill = bill.pk; amount = pos_part a.amount } ∷ rest
          else rest
    ]

abbrev lines_of : Option ReturnRef → Option (List ReturnLine)
lines_of none = none
lines_of (some t) = some t.lines

abbrev pub month_numbers : List VendorCredit → List Suffix
month_numbers credits = select (λ n. n.in_month) (map (λ c. c.credit_number) credits)

-- The row with the totals of its lines: nothing is applied yet.
abbrev pub with_lines : ℕ → List CreditLine → VendorCredit → VendorCredit
with_lines total lines credit =
    let total_amount = round_half_up total 1000000 in
    record credit {
      items = lines;
      subtotal = round_half_up (net_total lines) 100;
      tax_amount = round_half_up (total - 10000 * net_total lines) 1000000;
      total_amount = total_amount;
      applied_amount = 0;
      remaining_amount = total_amount;
    }

abbrev pub new_credit : ℕ → ℕ → ℕ → ℕ → CreditRequest → List ApplicationRequest → VendorCredit
new_credit pk sequence supplier branch r applications = record {
  pk = pk;
  credit_number = record { value = some sequence; padded = true; in_month = true };
  supplier_return = field_of (λ t. t.pk) r.supplier_return;
  supplier = supplier;
  branch = branch;
  purchase_order = map_order (λ o. o.pk) (credit_order r);
  return_lines = lines_of r.supplier_return;
  items = [];
  applications = planned_shares applications;
  subtotal = 0;
  tax_amount = 0;
  total_amount = 0;
  applied_amount = 0;
  remaining_amount = 0;
  status = CreditStatus.draft;
  posted = false;
}

-- `create`, after `validate`; past the checks the supplier and the branch are there.
unfoldable pub create_credit :
    (List Suffix → Option Suffix)
    → ℕ
    → CreditRequest
    → List CreditItemRequest
    → List ApplicationRequest
    → List VendorCredit
    → Result FormError VendorCredit
create_credit latest pk r items applications credits =
    let errors = credit_errors none credits r in
    raise_if (not (is_empty errors)) (FormError.invalid errors)
    >> raise_if (is_empty items) FormError.no_items
    >> calculate_items items
    >>= λ rows. validate_applications (credit_supplier r) applications rows.0 >>= λ _.
        or_raise (next_sequence latest (month_numbers credits)) FormError.no_number >>= λ sequence.
        or_raise (credit_supplier r) (FormError.invalid errors) >>= λ supplier.
        or_raise (credit_branch r) (FormError.invalid errors) >>= λ branch.
        ok (with_lines rows.0 rows.1 (new_credit pk sequence supplier branch r applications))

abbrev is_draft : CreditStatus → Bool
is_draft CreditStatus.draft = true
is_draft _ = false

-- The lines of an edit, if it has any, and the exact total that its applications are checked against.
abbrev edited_lines :
    Option (List CreditItemRequest) → VendorCredit → Result FormError (VendorCredit × ℕ)
edited_lines none credit = ok (credit, 1000000 * credit.total_amount)
edited_lines (some items) credit =
    raise_if (is_empty items) FormError.no_items >> calculate_items items >>= λ rows.
    ok (with_lines rows.0 rows.1 credit, rows.0)

abbrev edited_applications :
    Option (List ApplicationRequest) → Option ℕ → ℕ → VendorCredit → Result FormError VendorCredit
edited_applications none supplier total credit = ok credit
edited_applications (some applications) supplier total credit =
    validate_applications supplier applications total >>= λ _.
    ok (record credit { applications = planned_shares applications })

-- `update`, with lines and applications or without
unfoldable pub update_credit :
    CreditRequest
    → Option (List CreditItemRequest)
    → Option (List ApplicationRequest)
    → List VendorCredit
    → VendorCredit
    → Result FormError VendorCredit
update_credit r items applications credits credit =
    let errors = credit_errors (some credit.pk) credits r in
    raise_if (not (is_empty errors)) (FormError.invalid errors)
    >> raise_if (not (is_draft credit.status)) FormError.not_draft
    >> edited_lines items credit
    >>= λ lined. edited_applications applications (credit_supplier r) lined.1 lined.0 >>= λ planned.
        or_raise (credit_supplier r) (FormError.invalid errors) >>= λ supplier.
        or_raise (credit_branch r) (FormError.invalid errors) >>= λ branch. ok (record planned {
          supplier = supplier;
          branch = branch;
          purchase_order = map_order (λ o. o.pk) (credit_order r);
          supplier_return = field_of (λ t. t.pk) r.supplier_return;
          return_lines = lines_of r.supplier_return;
        })
