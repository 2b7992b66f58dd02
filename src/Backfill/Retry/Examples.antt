-- ===== src/Backfill/Retry/Examples.antt =====
-- Runs of the failure ledger.
use nimo_os_photos.Prelude.{◌≡◌, refl, true, [], ◌∷◌, ◌++◌, some, text, lookup, insert, text_eq}
use nimo_os_photos.Backfill.Retry.{
  Key, key_Eq, clip, ocr, eligible, record_backfill_failure, bump, case_delay,
  backfill_retry_delays, backfill_retry_delay,
}
use nimo_os_photos.Backfill.Retry.Ladder.{record_all, record_all_schedules, failed_row}

abbrev beach : Key
beach = (clip, text "beach")

abbrev beach_text : Key
beach_text = (ocr, text "beach")

-- The third failure waits an hour.
eligible_third :
    eligible beach 3_700_000 (record_all beach ((0, []) ∷ (1000, []) ∷ (100_000, []) ∷ []) [])
    ≡ true
unfolding eligible record_backfill_failure lookup insert text_eq bump case_delay
    backfill_retry_delay backfill_retry_delays
eligible_third = refl

record_all_schedules_example :
    lookup beach (record_all beach (((0, []) ∷ []) ++ (400_000, text "timeout") ∷ []) [])
    ≡ some (failed_row 2 400_000 (text "timeout"))
unfolding lookup
record_all_schedules_example =
    (record_all_schedules beach ((0, []) ∷ []) 400_000 (text "timeout") [] refl).0
