-- ===== src/Captions/Attempts.antt =====
-- How often an asset is handed to Parser, and what a Parser that is not there leaves.
use nimo_os_photos.Prelude.{
  ℕ, ◌+◌, ◌≤◌, ◌≡◌, refl, Bool, true, false, ◌&&◌, not, Option, none, some, List, [], ◌∷◌, map,
  Text, text_eq, text_eq_iff, keep, is_some, ltb, ◌==◌, arith, if◌then◌else◌, Bool-cases, inl, inr,
}
use mathlib.Core.Option as Option
use nimo_os_photos.Captions.{
  CaptionRow, Feed, Answer, accepted, unavailable, rejected, Env, Rows, row_at, update_at,
  caption_max_attempts, feed_info, handed_off, attempted, mark_handed_off, mark_rejected, is_stale,
  requeue_stale, is_pending, query_pending, Round, Progress, again, summarise, silent, hand_off,
  answered, feed_next, feed_step, feed_batch, start, feed_pending, backfill_once,
}

row_at-update_at :
    (g : CaptionRow → CaptionRow) (id a : Text) (rows : Rows)
    → ((r : CaptionRow) → (g r).id ≡ r.id)
    → row_at a (update_at id g rows)
      ≡ (if text_eq id a then Option.map g (row_at a rows) else row_at a rows)
row_at-update_at g id a [] h = ground arith
row_at-update_at g id a (r ∷ rows) h = ground (
  arith,
  h r,
  text_eq_iff r.id id,
  text_eq_iff r.id a,
  text_eq_iff id a,
  row_at-update_at g id a rows h,
)

abbrev pub attempts_of : Option CaptionRow → ℕ
attempts_of none = 0
attempts_of (some r) = r.caption_attempts

abbrev pub attempts_at : Text → Rows → ℕ
attempts_at a rows = attempts_of (row_at a rows)

-- A row that so many calls may have changed: each adds at most one attempt, and by none it is the same.
abbrev pub Times : ℕ → Option CaptionRow → Option CaptionRow → Type 0
Times n o o' = (attempts_of o' ≤ attempts_of o + n) × ((if n == 0 then o' else o) ≡ o)

abbrev pub once : Bool → ℕ
once b = if b then 1 else 0

abbrev Once : Text → Text → Rows → Rows → Type 0
Once id a rows rows' = Times (once (text_eq id a)) (row_at a rows) (row_at a rows')

Times-same : (n : ℕ) (o : Option CaptionRow) → Times n o o
Times-same n o = (omega arith, ground arith)

Times-trans : (m n : ℕ) (o p q : Option CaptionRow) → Times m o p → Times n p q → Times (m + n) o q
Times-trans m n o p q h k = (omega (arith, h.0, k.0), ground (arith, h.1, k.1))

attempts-map :
    (g : CaptionRow → CaptionRow) (o : Option CaptionRow)
    → ((r : CaptionRow) → (g r).caption_attempts ≡ r.caption_attempts + 1)
    → attempts_of (Option.map g o) ≤ attempts_of o + 1
attempts-map g none k = omega arith
attempts-map g (some r) k = omega (arith, k r)

update-Once :
    (g : CaptionRow → CaptionRow) (id a : Text) (rows : Rows)
    → ((r : CaptionRow) → (g r).id ≡ r.id)
    → ((r : CaptionRow) → (g r).caption_attempts ≡ r.caption_attempts + 1)
    → Once id a rows (update_at id g rows)
update-Once g id a rows h k = elim (Bool-cases (text_eq id a)) [
  | inl e ↦ rw (e, row_at-update_at g id a rows h, e) (attempts-map g (row_at a rows) k, refl)
  | inr e ↦ rw (e, row_at-update_at g id a rows h, e) (omega arith, refl)
]

abbrev rows_of : Progress → Rows
rows_of (again s) = s.rows
rows_of (summarise s) = s.rows
rows_of (silent s) = s.rows

hand_off-Once :
    (e : Env) (id a : Text) (s : Round) → Once id a s.rows (mark_handed_off e id s.rows).0
unfolding mark_handed_off
hand_off-Once e id a s = elim (Bool-cases (e.hand_off_fails id)) [
  | inl h ↦ rw h (Times-same _ _)
  | inr h ↦ rw h (update-Once (handed_off e.now) id a s.rows (λ r. refl) (λ r. refl))
]

rejected-Once : (e : Env) (id a : Text) (s : Round) → Once id a s.rows (mark_rejected e id s.rows)
unfolding mark_rejected
rejected-Once e id a s = elim (Bool-cases (e.reject_fails id)) [
  | inl h ↦ rw h (Times-same _ _)
  | inr h ↦ rw h (update-Once attempted id a s.rows (λ r. refl) (λ r. refl))
]

rows-hand_off : (s : Round) (x : Rows × Bool) → rows_of (hand_off s x) ≡ x.0
rows-hand_off s (rows, true) = refl
rows-hand_off s (rows, false) = refl

answered-Once :
    (e : Env) (id a : Text) (s : Round) (x : Answer)
    → Once id a s.rows (rows_of (answered e id s x))
answered-Once e id a s accepted =
    rw (rows-hand_off (record s { calls = s.calls + 1 }) (mark_handed_off e id s.rows))
      (hand_off-Once e id a s)
answered-Once e id a s unavailable = elim (Bool-cases (s.calls == 0)) [
  | inl h ↦ rw h (Times-same _ _)
  | inr h ↦ rw h (Times-same _ _)
]
answered-Once e id a s rejected = rejected-Once e id a s

feed_next-Once :
    (e : Env) (id a : Text) (s : Round) (o : Option Feed)
    → Once id a s.rows (rows_of (feed_next e id s o))
feed_next-Once e id a s none = Times-same _ _
feed_next-Once e id a s (some feed) = answered-Once e id a s (e.sink s.calls feed)

feed_step-Once : (e : Env) (id a : Text) (s : Round) → Once id a s.rows (rows_of (feed_step e id s))
unfolding feed_step
feed_step-Once e id a s = elim (Bool-cases (e.cancelled id)) [
  | inl h ↦ rw h (Times-same _ _)
  | inr h ↦ rw h (feed_next-Once e id a s (feed_info e id s.rows))
]

-- How often an id is on a list.
unfoldable pub count : Text → List Text → ℕ
count a [] = 0
count a (id ∷ ids) = once (text_eq id a) + count a ids

after_step :
    (e : Env) (a : Text) (ids : List Text) (m : ℕ) (o : Option CaptionRow) (p : Progress)
    → Times m o (row_at a (rows_of p))
    → ((s : Round) → Times (count a ids) (row_at a s.rows) (row_at a (feed_batch e ids s).0.rows))
    → let x : Round × Bool = elim p [
      | again s' ↦ feed_batch e ids s'
      | summarise s' ↦ (s', true)
      | silent s' ↦ (s', false)
    ] in
      Times (m + count a ids) o (row_at a x.0.rows)
after_step e a ids m o (again s) h k = Times-trans m (count a ids) o (row_at a s.rows) _ h (k s)
after_step e a ids m o (summarise s) h k =
    Times-trans m (count a ids) o (row_at a s.rows) _ h (Times-same _ _)
after_step e a ids m o (silent s) h k =
    Times-trans m (count a ids) o (row_at a s.rows) _ h (Times-same _ _)

feed_batch-Times :
    (e : Env) (a : Text) (ids : List Text) (s : Round)
    → Times (count a ids) (row_at a s.rows) (row_at a (feed_batch e ids s).0.rows)
unfolding feed_batch count
feed_batch-Times e a [] s = Times-same 0 _
feed_batch-Times e a (id ∷ ids) s =
    after_step e a ids (once (text_eq id a)) (row_at a s.rows) (feed_step e id s)
      (feed_step-Once e id a s) (λ s'. feed_batch-Times e a ids s')

-- No two rows have one id, which is the primary key.
unfoldable pub distinct_rows : Rows → Bool
distinct_rows [] = true
distinct_rows (r ∷ rows) = not (is_some (row_at r.id rows)) && distinct_rows rows

abbrev pub pending_at : Option CaptionRow → Bool
pending_at none = false
pending_at (some r) = is_pending r

abbrev ids_of : Rows → List Text
ids_of rows = map (λ r. r.id) rows

count-absent :
    (a : Text) (rows : Rows)
    → is_some (row_at a rows) ≡ false
    → count a (ids_of (keep is_pending rows)) ≡ 0
unfolding count
count-absent a [] h = refl
count-absent a (r ∷ rows) h = ground (arith, count-absent a rows)

-- An id is pending as often as it has a pending row.
count-pending :
    (a : Text) (rows : Rows)
    → distinct_rows rows ≡ true
    → count a (ids_of (keep is_pending rows)) ≡ once (pending_at (row_at a rows))
unfolding count distinct_rows
count-pending a [] h = refl
count-pending a (r ∷ rows) h =
    ground (arith, count-pending a rows, count-absent a rows, text_eq_iff r.id a)

abbrev pub requeued : ℕ → CaptionRow → CaptionRow
requeued now r = if is_stale now r then record r { caption_synced = false } else r

id-requeued : (now : ℕ) (r : CaptionRow) → (requeued now r).id ≡ r.id
id-requeued now r = ground arith

row_at-requeued :
    (now : ℕ) (a : Text) (rows : Rows)
    → row_at a (map (requeued now) rows) ≡ Option.map (requeued now) (row_at a rows)
row_at-requeued now a [] = refl
row_at-requeued now a (r ∷ rows) =
    rw (id-requeued now r) (ground (arith, row_at-requeued now a rows))

is_some-map :
    (g : CaptionRow → CaptionRow) (o : Option CaptionRow) → is_some (Option.map g o) ≡ is_some o
is_some-map g none = refl
is_some-map g (some r) = refl

distinct-requeued :
    (now : ℕ) (rows : Rows)
    → distinct_rows rows ≡ true
    → distinct_rows (map (requeued now) rows) ≡ true
unfolding distinct_rows
distinct-requeued now [] h = refl
distinct-requeued now (r ∷ rows) h =
    rw (id-requeued now r, row_at-requeued now r.id rows, is_some-map)
      (ground (arith, distinct-requeued now rows))

feed_pending-Times :
    (e : Env) (a : Text) (rows : Rows)
    → distinct_rows rows ≡ true
    → Times
        (once (pending_at (row_at a rows)))
        (row_at a rows)
        (row_at a (feed_pending e rows (query_pending e rows)).0)
unfolding query_pending feed_batch feed_step mark_handed_off mark_rejected feed_info
feed_pending-Times e a rows d = elim (Bool-cases e.query_fails) [
  | inl f ↦ rw f (Times-same _ _)
  | inr f ↦
      rw (f, ← count-pending a rows d)
        (feed_batch-Times e a (ids_of (keep is_pending rows)) (start rows))
]

-- A row at the limit is neither requeued nor pending; another one gains at most one attempt.
limit_step :
    (now : ℕ) (o o' : Option CaptionRow)
    → Times (once (pending_at (Option.map (requeued now) o))) (Option.map (requeued now) o) o'
    → Times (once (ltb (attempts_of o) caption_max_attempts)) o o'
unfolding is_pending is_stale
limit_step now none o' h = (omega (arith, h.0), refl)
limit_step now (some r) o' h = ground arith

-- In a round of the backfill, whatever Parser answers and whichever statements fail: a row with three
-- attempts or more is left as it is, and any other row gains at most one attempt. The ids of the rows
-- are distinct.
pub backfill_hands_off_once :
    (e : Env) (rows : Rows) (a : Text)
    → distinct_rows rows ≡ true
    → Times
        (once (ltb (attempts_at a rows) caption_max_attempts))
        (row_at a rows)
        (row_at a (backfill_once e rows).0)
unfolding backfill_once requeue_stale query_pending feed_batch feed_step mark_handed_off
    mark_rejected feed_info
backfill_hands_off_once e rows a d = elim (Bool-cases e.requeue_fails) [
  | inl f ↦ rw f (Times-same _ _)
  | inr f ↦ rw f (
      limit_step e.now (row_at a rows) _ (
        rw⁻¹ (row_at-requeued e.now a rows)
          (feed_pending-Times e a (map (requeued e.now) rows) (distinct-requeued e.now rows d))))
]
