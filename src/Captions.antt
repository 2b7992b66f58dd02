-- ===== src/Captions.antt =====
-- service/captionfeed.go: CaptionFeeder, which hands assets to Parser for captions. The answer of
-- Parser to each call, the clock and the statements that fail are arguments; times are milliseconds.
-- The task's cancellation is asked before each asset.
pub mod Attempts
pub mod Parser
mod Examples
use nimo_os_photos.Prelude.{
  ℕ, suc, ◌+◌, Bool, true, false, ◌&&◌, ◌||◌, not, Option, none, some, List, [], ◌∷◌, ◌++◌, map,
  Text, text, text_eq, is_empty, join, keep, find_first, is_some, ltb, ◌==◌, if◌then◌else◌,
}

-- captionMaxAttempts, and captionStaleAfter: 24 hours.
abbrev pub caption_max_attempts : ℕ
caption_max_attempts = 3

abbrev pub caption_stale_after : ℕ
caption_stale_after = 86_400_000

-- The columns of assets and asset_geo that the feeder uses; NULL texts read as empty. `captioned`:
-- the table asset_caption has a row of the asset.
pub record CaptionRow : Type 0 where
  pub id : Text
  pub mime_type : Text
  pub taken_at : Text
  pub city : Text
  pub country : Text
  pub indexed : Bool
  pub deleted : Bool
  pub offline : Bool
  pub caption_synced : Bool
  pub caption_handed_at : Option ℕ
  pub caption_attempts : ℕ
  pub captioned : Bool

-- What IngestAsset is given, and what it answers.
pub record Feed : Type 0 where
  pub asset_id : Text
  pub image_path : Text
  pub mime : Text
  pub taken : Text
  pub place : Text

pub data Answer : Type 0 where
  accepted unavailable rejected : Answer

pub record Env : Type 0 where
  pub thumb_dir : Text
  pub now : ℕ
  -- The answer to the call of that number in the round.
  pub sink : ℕ → Feed → Answer
  pub cancelled : Text → Bool
  pub requeue_fails : Bool
  pub query_fails : Bool
  pub info_fails : Text → Bool
  pub hand_off_fails : Text → Bool
  pub reject_fails : Text → Bool

abbrev pub Rows : Type 0
Rows = List CaptionRow

abbrev pub row_at : Text → Rows → Option CaptionRow
row_at id rows = find_first (λ r. text_eq r.id id) rows

-- UPDATE assets SET … WHERE id=?
abbrev pub update_at : Text → (CaptionRow → CaptionRow) → Rows → Rows
update_at id g rows = map (λ r. if text_eq r.id id then g r else r) rows

unfoldable pub join_place : Text → Text → Text
join_place city country =
    if not (is_empty city) && not (is_empty country)
    then city ++ (text ", " ++ country)
    else if not (is_empty city)
    then city
    else country

abbrev feed_of : Env → Option CaptionRow → Option Feed
feed_of e none = none
feed_of e (some r) = some (record {
  asset_id = r.id;
  image_path = join (join e.thumb_dir r.id) (text "large.jpg");
  mime = r.mime_type;
  taken = r.taken_at;
  place = join_place r.city r.country;
})

-- feedInfo and the path of the thumbnail.
unfoldable pub feed_info : Env → Text → Rows → Option Feed
feed_info e id rows = if e.info_fails id then none else feed_of e (row_at id rows)

abbrev pub handed_off : ℕ → CaptionRow → CaptionRow
handed_off now r = record r {
  caption_synced = true;
  caption_handed_at = some now;
  caption_attempts = r.caption_attempts + 1;
}

abbrev pub attempted : CaptionRow → CaptionRow
attempted r = record r { caption_attempts = r.caption_attempts + 1 }

unfoldable pub mark_handed_off : Env → Text → Rows → Rows × Bool
mark_handed_off e id rows =
    if e.hand_off_fails id then (rows, false) else (update_at id (handed_off e.now) rows, true)

unfoldable pub mark_rejected : Env → Text → Rows → Rows
mark_rejected e id rows = if e.reject_fails id then rows else update_at id attempted rows

-- What FeedOne makes of the rows, by the answer of Parser.
abbrev pub fed_with : Env → Text → Rows → Answer → Rows
fed_with e id rows accepted = (mark_handed_off e id rows).0
fed_with e id rows unavailable = rows
fed_with e id rows rejected = mark_rejected e id rows

abbrev pub feed_if_there : Env → Text → Rows → Option Feed → Rows
feed_if_there e id rows none = rows
feed_if_there e id rows (some feed) = fed_with e id rows (e.sink 0 feed)

abbrev pub unsynced : Option CaptionRow → Bool
unsynced none = false
unsynced (some r) = not r.caption_synced

unfoldable pub feed_one : Env → Text → Rows → Rows
feed_one e id rows =
    if unsynced (row_at id rows) then feed_if_there e id rows (feed_info e id rows) else rows

abbrev handed_before : ℕ → Option ℕ → Bool
handed_before now none = true
handed_before now (some t) = ltb (t + caption_stale_after) now

-- The condition of requeueStale on a row.
unfoldable pub is_stale : ℕ → CaptionRow → Bool
is_stale now r =
    r.caption_synced
    && handed_before now r.caption_handed_at
    && ltb r.caption_attempts caption_max_attempts
    && r.indexed
    && not r.deleted
    && not r.captioned

unfoldable pub requeue_stale : Env → Rows → Option Rows
requeue_stale e rows =
    if e.requeue_fails
    then none
    else some (map (λ r. if is_stale e.now r then record r { caption_synced = false } else r) rows)

-- The condition of queryPending on a row.
unfoldable pub is_pending : CaptionRow → Bool
is_pending r =
    not r.caption_synced
    && r.indexed
    && not r.deleted
    && not r.offline
    && ltb r.caption_attempts caption_max_attempts

unfoldable pub query_pending : Env → Rows → Option (List Text)
query_pending e rows = if e.query_fails then none else some (map (λ r. r.id) (keep is_pending rows))

unfoldable pub on_restore : Bool → Text → Rows → Rows
on_restore fails id rows =
    if fails
    then rows
    else update_at id
        (λ r. record r { caption_synced = false; caption_handed_at = none; caption_attempts = 0 })
        rows

-- The state of feedBatch: how many calls of Parser there were, and the counts of the summary.
pub record Round : Type 0 where
  pub rows : Rows
  pub calls : ℕ
  pub fed : ℕ
  pub failed : ℕ

-- The loop goes on, stops with a summary, or stops silently.
pub data Progress : Type 0 where
  again : Round → Progress
  summarise : Round → Progress
  silent : Round → Progress

abbrev pub hand_off : Round → Rows × Bool → Progress
hand_off s (rows, true) = again (record s { rows = rows; fed = s.fed + 1 })
hand_off s (rows, false) = again (record s { rows = rows; failed = s.failed + 1 })

abbrev pub answered : Env → Text → Round → Answer → Progress
answered e id s accepted = hand_off (record s { calls = s.calls + 1 }) (mark_handed_off e id s.rows)
answered e id s unavailable = if s.calls == 0 then silent s else summarise s
answered e id s rejected =
    again
      (record s { rows = mark_rejected e id s.rows; calls = s.calls + 1; failed = s.failed + 1 })

abbrev pub feed_next : Env → Text → Round → Option Feed → Progress
feed_next e id s none = again (record s { failed = s.failed + 1 })
feed_next e id s (some feed) = answered e id s (e.sink s.calls feed)

-- One round of the loop of feedBatch.
unfoldable pub feed_step : Env → Text → Round → Progress
feed_step e id s = if e.cancelled id then summarise s else feed_next e id s (feed_info e id s.rows)

-- The last state, and whether the summary is logged.
unfoldable pub feed_batch : Env → List Text → Round → Round × Bool
feed_batch e [] s = (s, true)
feed_batch e (id ∷ ids) s = elim (feed_step e id s) [
  | again s' ↦ feed_batch e ids s'
  | summarise s' ↦ (s', true)
  | silent s' ↦ (s', false)
]

abbrev pub start : Rows → Round
start rows = record { rows = rows; calls = 0; fed = 0; failed = 0 }

abbrev pub feed_pending : Env → Rows → Option (List Text) → Rows × Bool
feed_pending e rows none = (rows, false)
feed_pending e rows (some ids) = ((feed_batch e ids (start rows)).0.rows, true)

abbrev pub after_requeue : Env → Rows → Option Rows → Rows × Bool
after_requeue e rows none = (rows, false)
after_requeue e rows (some rows') = feed_pending e rows' (query_pending e rows')

-- The rows after a round, and whether it returned no error.
unfoldable pub backfill_once : Env → Rows → Rows × Bool
backfill_once e rows = after_requeue e rows (requeue_stale e rows)
