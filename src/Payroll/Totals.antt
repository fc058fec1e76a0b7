-- ===== src/Payroll/Totals.antt =====
-- A payroll run and its entries: `generate` of apps/hrms/views.py as a whole.
use mathlib.Core.List.{append_assoc, append-nil}
use ghazatech_inventory_be.Prelude.{
  ℕ, ◌+◌, ◌≡◌, ◌∙◌, refl, sym, ap, List, [], ◌∷◌, ◌++◌, arith, inl, inr,
}
use ghazatech_inventory_be.Payroll.Records.{SalaryAdvance, PayrollEntry, PayrollRun, Payroll}
use ghazatech_inventory_be.Payroll.Staff.{Request, Staff, Employee, Refusal}
use ghazatech_inventory_be.Payroll.Generate.{
  Made, refused, skipped, made, Outcome, stopped, finished, Reply, created, bad_request,
  generate_one, generate_all, sum_of, new_run, conclude, selected, generate,
}
use ghazatech_inventory_be.Payroll.Generated.{
  AllBalanced, generate_one-IsMade, go_on, generate_all-cons, Made-cases,
}

-- What the loop has written when it has gone through all the employees.
pub record IsWritten (p : Payroll) (new : List PayrollEntry) (p' : Payroll) : Type 0 where
  pub balanced : AllBalanced new
  pub entries : p'.entries ≡ p.entries ++ new
  pub advances : p'.advances ≡ p.advances

module _ (q : Request) (run : ℕ) (staff : Staff) where
  pub generate_all-IsWritten :
      (employees : List Employee) (p : Payroll) (changed : List SalaryAdvance)
      (so_far : List PayrollEntry) {p' : Payroll} {changed' : List SalaryAdvance}
      {all_made : List PayrollEntry}
      → generate_all q run staff employees p changed so_far ≡ finished p' changed' all_made
      → (new : List PayrollEntry) × (all_made ≡ so_far ++ new) × IsWritten p new p'
  unfolding generate_all
  generate_all-IsWritten [] p changed so_far {p'} {changed'} {all_made} h =
      let same_p : p ≡ p' = cc in
      let same : so_far ≡ all_made = cc in
      (
        [],
        sym same ∙ sym (append-nil so_far),
        record {
          balanced = tt;
          entries = rw (← same_p) (sym (append-nil p.entries));
          advances = rw (← same_p) refl;
        },
      )
  generate_all-IsWritten (e ∷ employees) p changed so_far {p'} {changed'} {all_made} h =
      let step : (m : Made)
          → generate_one q run staff e p ≡ m
          → go_on q run staff m employees p changed so_far ≡ finished p' changed' all_made =
        λ m one. sym (generate_all-cons q run staff m e employees p changed so_far one) ∙ h in
      elim (Made-cases q run staff (generate_one q run staff e p)) [
        | inl (r, one) ↦
            let impossible : stopped r p ≡ finished p' changed' all_made = step (refused r) one in
            cc
        | inr (inl one) ↦ generate_all-IsWritten employees p changed so_far (step skipped one)
        | inr (inr (x, p1, rows, one)) ↦
            let first = generate_one-IsMade q run staff e p one in
            let (new, same, rest) =
              generate_all-IsWritten employees p1 (changed ++ rows) (so_far ++ x ∷ [])
                (step (made x p1 rows) one) in
            (
              x ∷ new,
              same ∙ append_assoc so_far (x ∷ []) new,
              record {
                balanced = (first.balanced, rest.balanced);
                entries =
                    rest.entries
                    ∙ ap (λ (es : List PayrollEntry). es ++ new) first.entries
                    ∙ append_assoc p.entries (x ∷ []) new;
                advances = rest.advances ∙ first.advances;
              },
            )
      ]

sum_of-AllBalanced :
    (entries : List PayrollEntry)
    → AllBalanced entries
    → sum_of (λ x. x.gross_salary) entries
      ≡ sum_of (λ x. x.net_salary) entries
        + sum_of (λ x. x.loan_deduction) entries
        + sum_of (λ x. x.advance_deduction) entries
sum_of-AllBalanced [] b = refl
sum_of-AllBalanced (x ∷ entries) (b, bs) = omega (arith, b, sum_of-AllBalanced entries bs)

-- What a run that is made adds to the tables.
pub record IsRun (q : Request) (p : Payroll) (new : List PayrollEntry) (r : PayrollRun)
    (p' : Payroll) : Type 0 where
  pub balanced : AllBalanced new
  pub entries : p'.entries ≡ p.entries ++ new
  pub run : r ≡ new_run q p.next_pk new

conclude-IsRun :
    (q : Request) (p opened : Payroll) (outcome : Outcome) {r : PayrollRun} {p' : Payroll}
    → opened.entries ≡ p.entries
    → ((p1 : Payroll) (changed : List SalaryAdvance) (all_made : List PayrollEntry)
        → outcome ≡ finished p1 changed all_made
        → IsWritten opened all_made p1)
    → conclude q p.next_pk outcome ≡ (created r, p')
    → (new : List PayrollEntry) × IsRun q p new r p'
conclude-IsRun q p opened (stopped s p1) same written h = cc
conclude-IsRun q p opened (finished p1 changed []) same written h = cc
conclude-IsRun q p opened (finished p1 changed (x ∷ new)) {r} {p'} same written h =
    let w = written p1 changed (x ∷ new) refl in
    let entries : p'.entries ≡ p1.entries = ap (λ (o : Reply × Payroll). o.1.entries) (sym h) in
    let run : created (new_run q p.next_pk (x ∷ new)) ≡ created r =
      ap (λ (o : Reply × Payroll). o.0) h in
    (
      x ∷ new,
      record {
        balanced = w.balanced;
        entries = entries ∙ w.entries ∙ ap (λ (es : List PayrollEntry). es ++ x ∷ new) same;
        run = cc;
      },
    )

generate-IsRun :
    (latest : ℕ) (q : Request) (staff : Staff) (p : Payroll) {r : PayrollRun} {p' : Payroll}
    → generate latest q staff p ≡ (created r, p')
    → (new : List PayrollEntry) × IsRun q p new r p'
unfolding generate
generate-IsRun latest q staff p {r} {p'} h =
    let opened : Payroll = record p {
      runs = p.runs ++ new_run q p.next_pk [] ∷ [];
      next_pk = p.next_pk + 1;
    } in
    let outcome = generate_all q p.next_pk staff (selected q staff) opened [] [] in
    let e : conclude q p.next_pk outcome ≡ (created r, p') = ground arith in
    conclude-IsRun q p opened outcome refl
      (λ p1 changed all_made finished_with.
        let (new, same, w) =
          generate_all-IsWritten q p.next_pk staff (selected q staff) opened [] [] finished_with in
        rw same w)
      e

-- A run that is made adds its entries to the table, each of them balanced, and its totals are theirs:
-- the gross total is what the entries pay out, repay of loans and recover of advances.
pub generate-totals :
    (latest : ℕ) (q : Request) (staff : Staff) (p : Payroll) {r : PayrollRun} {p' : Payroll}
    → generate latest q staff p ≡ (created r, p')
    → (new : List PayrollEntry) × (p'.entries ≡ p.entries ++ new)
      × AllBalanced new
      × (r.total_net ≡ sum_of (λ x. x.net_salary) new)
      × (r.total_gross
          ≡ r.total_net + sum_of (λ x. x.loan_deduction) new + r.total_advance_deduction)
generate-totals latest q staff p h =
    let (new, done) = generate-IsRun latest q staff p h in
    (
      new,
      done.entries,
      done.balanced,
      ap (λ (s : PayrollRun). s.total_net) done.run,
      rw done.run (sum_of-AllBalanced new done.balanced),
    )

-- Where the loop of a generation makes the first employee's entry and is refused at the second,
-- the reply is the refusal; the first entry stays written, and the advances stay what they were.
pub refused_generation_keeps_entry :
    (q : Request) (run : ℕ) (staff : Staff) (e f : Employee) (employees : List Employee)
    (p : Payroll) {x : PayrollEntry} {p1 : Payroll} {rows : List SalaryAdvance} {r : Refusal}
    → generate_one q run staff e p ≡ made x p1 rows
    → generate_one q run staff f p1 ≡ refused r
    → let (reply, p') = conclude q run (generate_all q run staff (e ∷ f ∷ employees) p [] []) in
      (reply ≡ bad_request r) × (p'.entries ≡ p.entries ++ x ∷ []) × (p'.advances ≡ p.advances)
refused_generation_keeps_entry q run staff e f employees p {x} {p1} {rows} {r} first second =
    let m = generate_one-IsMade q run staff e p first in
    let stop =
      generate_all-cons q run staff (made x p1 rows) e (f ∷ employees) p [] [] first
      ∙ generate_all-cons q run staff (refused r) f employees p1 rows (x ∷ []) second in
    let same = ap (conclude q run) stop in
    (
      ap (λ (o : Reply × Payroll). o.0) same,
      ap (λ (o : Reply × Payroll). o.1.entries) same ∙ m.entries,
      ap (λ (o : Reply × Payroll). o.1.advances) same ∙ m.advances,
    )
