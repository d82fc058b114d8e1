-- ===== src/Repositories/Sql/Pages.antt =====
-- What the reads of repository.go give back of what its writes stored.
use mathlib.Core.List.{append-nil, map-append}
use mytonstorage_gateway.Common.{
  Bool-cases, List, Option, [], arith, drop, if◌then◌else◌, inl, inr, none, pos, refl, some, suc,
  take, zero, ℕ, ℤ, ◌++◌, ◌+◌, ◌∙◌, ◌∷◌, ◌≡◌,
}
use mytonstorage_gateway.Models.{GoError, ok}
use mytonstorage_gateway.Repositories.{DbReport}
use mytonstorage_gateway.Repositories.Sql.{
  ReportRow, Statement, Tables, insert_into_reports, new_report_row, newest_first, page_of,
  report_of_row, reports_of_bag, select_all_reports,
}
use mytonstorage_gateway.Text.{Bytes, bytes_eq}

reports_of_bag-append :
    (b : Bytes) (rows more : List ReportRow)
    → reports_of_bag b (rows ++ more) ≡ reports_of_bag b rows ++ reports_of_bag b more
unfolding reports_of_bag
reports_of_bag-append b [] more = refl
reports_of_bag-append b (row ∷ rows) more = ground (arith, reports_of_bag-append b rows more)

-- The report as it is read, with the time at which it was stored.
abbrev pub stored_at : ℤ → DbReport → DbReport
stored_at now report = record report { created_at = some now }

insert_into_reports_done :
    (fault : Statement → Tables → Option GoError) (report : DbReport) (t : Tables)
    → (insert_into_reports fault report t).0 ≡ none
    → (insert_into_reports fault report t).1.reports
      ≡ t.reports ++ new_report_row report (t.clock t.statements) ∷ []
unfolding insert_into_reports
insert_into_reports_done fault report t done = ground arith

-- The reports that are returned for a bag after `AddReport` has stored a report: those of before,
-- and at their end the new one with the time of the insertion if it is for that bag.
pub insert_into_reports-selected :
    (fault : Statement → Tables → Option GoError) (report : DbReport) (t : Tables) (b : Bytes)
    → (insert_into_reports fault report t).0 ≡ none
    → reports_of_bag b (insert_into_reports fault report t).1.reports ≡ (
        if bytes_eq report.bag_id b
        then reports_of_bag b t.reports ++ stored_at (t.clock t.statements) report ∷ []
        else reports_of_bag b t.reports)
unfolding reports_of_bag
insert_into_reports-selected fault report t b done =
    rw (insert_into_reports_done fault report t done) (
      reports_of_bag-append b t.reports (new_report_row report (t.clock t.statements) ∷ [])
      ∙ elim (Bool-cases (bytes_eq report.bag_id b)) [
        | inl same ↦ rw same refl
        | inr other ↦ rw (other, append-nil) refl
      ])

zero_add : (n : ℕ) → 0 + n ≡ n
zero_add n = omega arith

suc_add : (n m : ℕ) → suc n + m ≡ suc (n + m)
suc_add n m = omega arith

module _ {A : Type 0} where
  take_nil : (m : ℕ) → take {A = A} m [] ≡ []
  take_nil zero = refl
  take_nil (suc m) = refl

  drop_nil : (m : ℕ) → drop {A = A} m [] ≡ []
  drop_nil zero = refl
  drop_nil (suc m) = refl

  take-add : (n m : ℕ) (l : List A) → take (n + m) l ≡ take n l ++ take m (drop n l)
  take-add zero m l = rw (zero_add m) refl
  take-add (suc n) m [] = rw (take_nil (suc n + m), take_nil m) refl
  take-add (suc n) m (a ∷ l) = rw (suc_add n m, take-add n m l) refl

  drop-add : (n m : ℕ) (l : List A) → drop (n + m) l ≡ drop m (drop n l)
  drop-add zero m l = rw (zero_add m) refl
  drop-add (suc n) m [] = rw (drop_nil (suc n + m), drop_nil m) refl
  drop-add (suc n) m (a ∷ l) = rw (suc_add n m) (drop-add n m l)

-- Two pages of reports that follow one another are the page of both lengths: no report is skipped
-- or repeated between them.
pub select_all_reports-joined :
    (fault : Statement → Tables → Option GoError) (t : Tables) (offset n m : ℕ)
    (first second : List DbReport)
    → select_all_reports fault (pos n) (pos offset) t ≡ ok first
    → select_all_reports fault (pos m) (pos (offset + n)) t ≡ ok second
    → select_all_reports fault (pos (n + m)) (pos offset) t ≡ ok (first ++ second)
unfolding select_all_reports page_of
select_all_reports-joined fault t offset n m first second e k =
    let rows = newest_first (λ row. row.created_at) t.reports in
    ground (
      arith,
      take-add n m (drop offset rows),
      drop-add offset n rows,
      map-append report_of_row (take n (drop offset rows)) (take m (drop n (drop offset rows))),
    )
