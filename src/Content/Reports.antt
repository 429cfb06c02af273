-- ===== src/Content/Reports.antt =====
-- What a report of a card does to the database.
use punchline.Base.{
  ℕ, ◌≤◌, ◌≡◌, refl, Bool, true, false, Option, none, some, Text, codes, arith, inl, inr,
  Option-cases, leb, Bool-cases, ◌++◌,
}
use punchline.Content.{
  CardReport, ContentDatabase, Reported, recorded, refused, after_commit, after_retire, after_set,
  after_count, after_insert, after_exists, after_check, checked_report, report,
}

module _ {D : Type 0} (db : ContentDatabase D) where
  -- The report was inserted, and with it at least three are open.
  pub record HasReports (before : D) (r : CardReport) (hash : Text) : Type 0 where
    pub with_report : D
    pub open_reports : ℕ
    pub inserted : db.insert_report r hash before ≡ some with_report
    pub counted : db.count_open r.card_kind r.card_id with_report ≡ some open_reports
    pub enough : 3 ≤ open_reports

  -- A refusal leaves the database as it was; a card is retired for enough reports.
  IsReport : D → CardReport → Text → D × Reported → Type 0
  IsReport before r hash (d, refused e) = d ≡ before
  IsReport before r hash (d, recorded true) = HasReports before r hash
  IsReport before r hash (d, recorded false) = Unit {0}

  after_commit-IsReport :
      (before : D) (r : CardReport) (hash : Text) (retired : Bool) (o : Option D)
      → (retired ≡ true → HasReports before r hash)
      → IsReport before r hash (after_commit db before retired o)
  unfolding IsReport after_commit
  after_commit-IsReport before r hash retired none h = refl
  after_commit-IsReport before r hash true (some d) h = h refl
  after_commit-IsReport before r hash false (some d) h = tt

  after_retire-IsReport :
      (before : D) (r : CardReport) (hash : Text) (o : Option (D × Bool))
      → HasReports before r hash
      → IsReport before r hash (after_retire db before o)
  unfolding after_retire IsReport
  after_retire-IsReport before r hash none h = refl
  after_retire-IsReport before r hash (some (d, b)) h =
      after_commit-IsReport before r hash b (db.commit d) (λ _. h)

  after_set-IsReport :
      (before : D) (r : CardReport) (hash : Text) (open_reports : ℕ) (o : Option D)
      → (3 ≤ open_reports → HasReports before r hash)
      → IsReport before r hash (after_set db before r open_reports o)
  unfolding after_set IsReport
  after_set-IsReport before r hash open_reports none h = refl
  after_set-IsReport before r hash open_reports (some d) h =
      elim (Bool-cases (leb 3 open_reports)) [
        | inl e ↦ rw e (after_retire-IsReport before r hash _ (h (ground (arith, e))))
        | inr e ↦ rw e (after_commit-IsReport before r hash false (db.commit d) (λ f. cc))
      ]

  after_count-IsReport :
      (before d : D) (r : CardReport) (hash : Text) (o : Option ℕ)
      → ((open_reports : ℕ) → o ≡ some open_reports → 3 ≤ open_reports → HasReports before r hash)
      → IsReport before r hash (after_count db before r d o)
  unfolding after_count IsReport
  after_count-IsReport before d r hash none h = refl
  after_count-IsReport before d r hash (some open_reports) h =
      after_set-IsReport before r hash open_reports _ (h open_reports refl)

  after_insert-IsReport :
      (before : D) (r : CardReport) (hash : Text) (o : Option D)
      → db.insert_report r hash before ≡ o
      → IsReport before r hash (after_insert db before r o)
  unfolding after_insert IsReport
  after_insert-IsReport before r hash none e = refl
  after_insert-IsReport before r hash (some d) e =
      after_count-IsReport before d r hash _ (λ open_reports f l. record {
        with_report = d;
        open_reports = open_reports;
        inserted = e;
        counted = f;
        enough = l;
      })

  after_exists-IsReport :
      (before : D) (r : CardReport) (hash : Text) (o : Option Bool)
      → IsReport before r hash (after_exists db before r hash o)
  unfolding after_exists IsReport
  after_exists-IsReport before r hash none = refl
  after_exists-IsReport before r hash (some false) = refl
  after_exists-IsReport before r hash (some true) = after_insert-IsReport before r hash _ refl

  -- What a report of a player ends with.
  pub IsHandled : (Text → Text) → CardReport → Text → D → D × Reported → Type 0
  IsHandled digest input reporter_seed before (d, refused e) = d ≡ before
  IsHandled digest input reporter_seed before (d, recorded false) = Unit {0}
  IsHandled digest input reporter_seed before (d, recorded true) =
      (r : CardReport) × (checked_report input ≡ some r)
      × HasReports before r (digest (reporter_seed ++ codes "|" ++ input.card_id))

  IsReport-IsHandled :
      (digest : Text → Text) (input r : CardReport) (reporter_seed : Text) (before : D)
      (o : D × Reported)
      → checked_report input ≡ some r
      → IsReport before r (digest (reporter_seed ++ codes "|" ++ input.card_id)) o
      → IsHandled digest input reporter_seed before o
  unfolding IsReport IsHandled
  IsReport-IsHandled digest input r seed before (d, refused e) c h = h
  IsReport-IsHandled digest input r seed before (d, recorded false) c h = tt
  IsReport-IsHandled digest input r seed before (d, recorded true) c h = (r, c, h)

  -- A report that is refused, for whatever error, leaves the database as it was. A report answers
  -- that the card is retired only if the report was valid and was inserted, and at least three of
  -- the card are open with it.
  pub report-IsHandled :
      (digest : Text → Text) (is_available : Bool) (input : CardReport) (reporter_seed : Text)
      (d : D)
      → IsHandled digest input reporter_seed d (report db digest is_available input reporter_seed d)
  unfolding report after_check IsHandled
  report-IsHandled digest false input seed d = refl
  report-IsHandled digest true input seed d = elim (Option-cases (checked_report input)) [
    | inl e ↦ rw e refl
    | inr (r, e) ↦
        rw e (IsReport-IsHandled digest input r seed d _ e (after_exists-IsReport d r _ _))
  ]
