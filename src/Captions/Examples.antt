-- ===== src/Captions/Examples.antt =====
-- Runs of the feeder: two assets, of which one has used up its attempts.
use nimo_os_photos.Prelude.{◌≡◌, refl, true, false, none, some, [], ◌∷◌, text, text_eq, join, ltb}
use nimo_os_photos.Captions.{
  CaptionRow, Feed, accepted, unavailable, Env, Rows, row_at, caption_max_attempts, join_place,
  feed_info, unsynced, backfill_once,
}
use nimo_os_photos.Captions.Attempts.{
  Times, once, attempts_at, distinct_rows, backfill_hands_off_once,
}

abbrev fresh : CaptionRow
fresh = record {
  id = text "a";
  mime_type = text "image/jpeg";
  taken_at = text "2024-05-01";
  city = text "Rome";
  country = text "Italy";
  indexed = true;
  deleted = false;
  offline = false;
  caption_synced = false;
  caption_handed_at = none;
  caption_attempts = 1;
  captioned = false;
}

abbrev spent : CaptionRow
spent = record fresh { id = text "b"; caption_attempts = 3 }

abbrev rows : Rows
rows = fresh ∷ spent ∷ []

abbrev deployed : Env
deployed = record {
  thumb_dir = text "/t";
  now = 1000;
  sink = λ n feed. accepted;
  cancelled = λ id. false;
  requeue_fails = false;
  query_fails = false;
  info_fails = λ id. false;
  hand_off_fails = λ id. false;
  reject_fails = λ id. false;
}

abbrev undeployed : Env
undeployed = record deployed { sink = λ n feed. unavailable }

rows_distinct : distinct_rows rows ≡ true
unfolding distinct_rows text_eq
rows_distinct = refl

backfill_hands_off_once_example :
    Times
      (once (ltb (attempts_at (text "b") rows) caption_max_attempts))
      (row_at (text "b") rows)
      (row_at (text "b") (backfill_once deployed rows).0)
backfill_hands_off_once_example = backfill_hands_off_once deployed rows (text "b") rows_distinct

abbrev spent_feed : Feed
spent_feed = record {
  asset_id = text "b";
  image_path = join (join (text "/t") (text "b")) (text "large.jpg");
  mime = text "image/jpeg";
  taken = text "2024-05-01";
  place = text "Rome, Italy";
}

spent_unsynced : unsynced (row_at (text "b") rows) ≡ true
unfolding text_eq
spent_unsynced = refl

spent_info : feed_info deployed (text "b") rows ≡ some spent_feed
unfolding feed_info text_eq join_place
spent_info = refl
