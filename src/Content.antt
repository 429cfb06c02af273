-- ===== src/Content.antt =====
-- The moderation of cards (backend/internal/content/service.go): the checks of what a player and the
-- desk send, and Report over the database, whose statements are parameters.
pub mod Reports
use punchline.Base.{
  ℕ, Bool, true, false, not, ◌&&◌, ◌||◌, ◌==◌, List, [], ◌∷◌, ◌++◌, Option, none, some,
  if◌then◌else◌, ltb, leb, take, Text, codes, same, trim_space, to_upper,
}
use punchline.Base.Int.{ℤ, pos, negsuc}
use punchline.Base.Uuids.{valid_uuid}

abbrev pub kind_prompt : Text
kind_prompt = codes "prompt"

abbrev pub kind_answer : Text
kind_answer = codes "answer"

abbrev pub auto_retire_threshold : ℕ
auto_retire_threshold = 3

-- What a report says of a card.
pub record CardReport : Type 0 where
  pub card_kind : Text
  pub card_id : Text
  pub reason : Text
  pub detail : Text
  pub room_code : Text

-- `validReasons`.
unfoldable pub valid_reason : Text → Bool
valid_reason reason =
    same reason (codes "offensive")
    || same reason (codes "broken")
    || same reason (codes "unfunny")
    || same reason (codes "duplicate")
    || same reason (codes "other")

-- The beginning of `Report`: the report as it is stored, none for `ErrInvalidInput`. Bytes and runes
-- of a room code are the same where it is ASCII.
unfoldable pub checked_report : CardReport → Option CardReport
unfolding valid_uuid valid_reason
checked_report input =
    let kind = trim_space input.card_kind in
    if not (same kind kind_prompt) && not (same kind kind_answer)
    then none
    else if not (valid_uuid input.card_id) || not (valid_reason input.reason)
    then none
    else some (record {
      card_kind = kind;
      card_id = input.card_id;
      reason = input.reason;
      detail = take 280 (trim_space input.detail);
      room_code = take 12 (to_upper (trim_space input.room_code));
    })

-- `queryLimit` of admin.go, of what `strconv.Atoi` reads.
unfoldable pub query_limit : Option ℤ → ℤ
query_limit none = pos 0
query_limit (some n) = n

unfoldable pub clamp_limit : ℤ → ℕ
clamp_limit (negsuc n) = 50
clamp_limit (pos n) = if n == 0 then 50 else if ltb 200 n then 200 else n

pub data CardColumn : Type 0 where
  times_played report_count skip_count win_count : CardColumn

pub data SortBy : Type 0 where
  up down : CardColumn → SortBy

-- `cardOrder`: the columns of the order, none for `ErrInvalidInput`.
unfoldable pub card_order : Text → Text → Option (List SortBy)
card_order kind sort =
    if same sort [] || same sort (codes "played")
    then some (down times_played ∷ [])
    else if same sort (codes "unplayed")
    then some (up times_played ∷ [])
    else if same sort (codes "reported")
    then some (down report_count ∷ down times_played ∷ [])
    else if same sort (codes "skipped")
    then (if same kind kind_prompt then some (down skip_count ∷ []) else none)
    else if same sort (codes "winning")
    then (if same kind kind_answer then some (down win_count ∷ []) else none)
    else none

-- The statements of `Report` on a database, each for a kind and the id of a card: none is an error.
-- An error of `BeginTx` is one of the first statement.
-- `retire_card` tells whether a row was changed.
pub record ContentDatabase (D : Type 0) : Type 0 where
  pub card_exists : Text → Text → D → Option Bool
  pub insert_report : CardReport → Text → D → Option D
  pub count_open : Text → Text → D → Option ℕ
  pub set_report_count : Text → Text → ℕ → D → Option D
  pub retire_card : Text → Text → D → Option (D × Bool)
  pub commit : D → Option D

pub data ContentError : Type 0 where
  unavailable invalid_input not_found of_database : ContentError

-- `ReportResult` or an error.
pub data Reported : Type 0 where
  recorded : (retired : Bool) → Reported
  refused : ContentError → Reported

module _ {D : Type 0} (db : ContentDatabase D) where
  -- The end of the transaction: what it did counts from `Commit` on. The first database is that
  -- before it, to which an error rolls back.
  unfoldable pub after_commit : D → Bool → Option D → D × Reported
  after_commit before retired none = (before, refused of_database)
  after_commit before retired (some d) = (d, recorded retired)

  unfoldable pub after_retire : D → Option (D × Bool) → D × Reported
  after_retire before none = (before, refused of_database)
  after_retire before (some (d, affected)) = after_commit before affected (db.commit d)

  unfoldable pub after_set : D → CardReport → ℕ → Option D → D × Reported
  after_set before r open_reports none = (before, refused of_database)
  after_set before r open_reports (some d) =
      if leb auto_retire_threshold open_reports
      then after_retire before (db.retire_card r.card_kind r.card_id d)
      else after_commit before false (db.commit d)

  unfoldable pub after_count : D → CardReport → D → Option ℕ → D × Reported
  after_count before r d none = (before, refused of_database)
  after_count before r d (some open_reports) =
      after_set before r open_reports (db.set_report_count r.card_kind r.card_id open_reports d)

  unfoldable pub after_insert : D → CardReport → Option D → D × Reported
  after_insert before r none = (before, refused of_database)
  after_insert before r (some d) = after_count before r d (db.count_open r.card_kind r.card_id d)

  unfoldable pub after_exists : D → CardReport → Text → Option Bool → D × Reported
  after_exists before r hash none = (before, refused of_database)
  after_exists before r hash (some false) = (before, refused not_found)
  after_exists before r hash (some true) = after_insert before r (db.insert_report r hash before)

  unfoldable pub after_check : D → Text → Option CardReport → D × Reported
  after_check before hash none = (before, refused invalid_input)
  after_check before hash (some r) =
      after_exists before r hash (db.card_exists r.card_kind r.card_id before)

  -- `Report`; `digest` is the hash of crypto/sha256.
  unfoldable pub report : (Text → Text) → Bool → CardReport → Text → D → D × Reported
  unfolding checked_report
  report digest is_available input reporter_seed d =
      if not is_available
      then (d, refused unavailable)
      else after_check d (digest (reporter_seed ++ codes "|" ++ input.card_id))
          (checked_report input)
