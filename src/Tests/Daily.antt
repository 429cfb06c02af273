-- ===== src/Tests/Daily.antt =====
-- The daily puzzle and the reports of cards.
use punchline.Base.{ℕ, ◌+◌, ◌≡◌, refl, true, List, [], ◌∷◌, some, codes, to_lower}
use punchline.Base.Uuids.{valid_uuid}
use punchline.Daily.{normalize_code, code_of_bytes, uuid_of_bytes}
use punchline.Daily.Codes.{normalize_code-code_of_bytes, valid_uuid-uuid_of_bytes}
use punchline.Content.{CardReport, ContentDatabase, report}
use punchline.Content.Reports.{IsHandled, report-IsHandled}

normalize_code-code_of_bytes_example :
    (normalize_code (code_of_bytes (200 ∷ 17 ∷ 30 ∷ [])) ≡ code_of_bytes (200 ∷ 17 ∷ 30 ∷ []))
    × (normalize_code (to_lower (code_of_bytes (200 ∷ 17 ∷ 30 ∷ [])))
        ≡ code_of_bytes (200 ∷ 17 ∷ 30 ∷ []))
normalize_code-code_of_bytes_example = normalize_code-code_of_bytes (200 ∷ 17 ∷ 30 ∷ [])

abbrev sixteen : List ℕ
sixteen = 1 ∷ 20 ∷ 255 ∷ 4 ∷ 5 ∷ 6 ∷ 7 ∷ 8 ∷ 9 ∷ 10 ∷ 171 ∷ 12 ∷ 13 ∷ 14 ∷ 15 ∷ 16 ∷ []

valid_uuid-uuid_of_bytes_example : valid_uuid (uuid_of_bytes sixteen) ≡ true
valid_uuid-uuid_of_bytes_example = valid_uuid-uuid_of_bytes sixteen refl

-- A database of the number of open reports of its one card.
abbrev counter : ContentDatabase ℕ
counter = record {
  card_exists = λ kind id n. some true;
  insert_report = λ r hash n. some (n + 1);
  count_open = λ kind id n. some n;
  set_report_count = λ kind id open_reports n. some n;
  retire_card = λ kind id n. some (n, true);
  commit = λ n. some n;
}

abbrev offence : CardReport
offence = record {
  card_kind = codes "answer";
  card_id = codes "0114ff04-0506-4708-890a-ab0c0d0e0f10";
  reason = codes "offensive";
  detail = [];
  room_code = codes "abcd";
}

report-IsHandled_example :
    IsHandled counter
      (λ t. t)
      offence
      (codes "player:x")
      2
      (report counter (λ t. t) true offence (codes "player:x") 2)
report-IsHandled_example = report-IsHandled counter (λ t. t) true offence (codes "player:x") 2
