-- ===== src/Captions/Parser.antt =====
-- What the answers of Parser make of the rows.
use nimo_os_photos.Prelude.{
  ℕ, ◌==◌, ◌≡◌, refl, ◌∙◌, Bool, true, false, Option, none, some, List, [], ◌∷◌, Text, Bool-cases,
  inl, inr,
}
use nimo_os_photos.Captions.{
  Feed, Answer, accepted, unavailable, rejected, Env, Rows, row_at, update_at, feed_info,
  handed_off, attempted, mark_handed_off, mark_rejected, fed_with, feed_if_there, unsynced,
  feed_one, Round, Progress, again, summarise, silent, feed_next, feed_step, feed_batch, start,
}

-- Parser is not deployed: no call reaches it.
abbrev pub Undeployed : Env → Type 0
Undeployed e = (n : ℕ) (feed : Feed) → e.sink n feed ≡ unavailable

-- A state of feedBatch in which nothing was handed off.
abbrev Untouched : Rows → Round → Type 0
Untouched rows s = (s.rows ≡ rows) × (s.calls ≡ 0) × (s.fed ≡ 0)

abbrev Halted : Rows → Progress → Type 0
Halted rows (again s) = Untouched rows s
Halted rows (summarise s) = Untouched rows s
Halted rows (silent s) = Untouched rows s

unreachable_next :
    (e : Env) (id : Text) (rows : Rows) (s : Round) (o : Option Feed)
    → Undeployed e
    → Untouched rows s
    → Halted rows (feed_next e id s o)
unreachable_next e id rows s none u h = h
unreachable_next e id rows s (some feed) u h =
    rw (u s.calls feed) (elim (Bool-cases (s.calls == 0)) [ inl q ↦ rw q h | inr q ↦ rw q h ])

unreachable_step :
    (e : Env) (id : Text) (rows : Rows) (s : Round)
    → Undeployed e
    → Untouched rows s
    → Halted rows (feed_step e id s)
unfolding feed_step feed_info
unreachable_step e id rows s u h = elim (Bool-cases (e.cancelled id)) [
  | inl c ↦ rw c h
  | inr c ↦ rw c (unreachable_next e id rows s (feed_info e id s.rows) u h)
]

unreachable_after :
    (e : Env) (ids : List Text) (rows : Rows) (p : Progress)
    → Halted rows p
    → ((s : Round) → Untouched rows s → Untouched rows (feed_batch e ids s).0)
    → let x : Round × Bool = elim p [
      | again s' ↦ feed_batch e ids s'
      | summarise s' ↦ (s', true)
      | silent s' ↦ (s', false)
    ] in
      Untouched rows x.0
unreachable_after e ids rows (again s) h k = k s h
unreachable_after e ids rows (summarise s) h k = h
unreachable_after e ids rows (silent s) h k = h

unreachable_batch :
    (e : Env) (ids : List Text) (rows : Rows) (s : Round)
    → Undeployed e
    → Untouched rows s
    → Untouched rows (feed_batch e ids s).0
unfolding feed_batch
unreachable_batch e [] rows s u h = h
unreachable_batch e (id ∷ ids) rows s u h =
    unreachable_after e ids rows (feed_step e id s) (unreachable_step e id rows s u h)
      (λ s' k. unreachable_batch e ids rows s' u k)

unreachable_one :
    (e : Env) (id : Text) (rows : Rows) (o : Option Feed)
    → Undeployed e
    → feed_if_there e id rows o ≡ rows
unreachable_one e id rows none u = refl
unreachable_one e id rows (some feed) u = rw (u 0 feed) refl

-- While Parser is not deployed, neither FeedOne nor feedBatch over any ids changes a row, and feedBatch
-- counts no hand-off.
unreachable_changes_nothing :
    (e : Env) (id : Text) (ids : List Text) (rows : Rows)
    → Undeployed e
    → (feed_one e id rows ≡ rows)
      × ((feed_batch e ids (start rows)).0.rows ≡ rows)
      × ((feed_batch e ids (start rows)).0.fed ≡ 0)
unfolding feed_one
unreachable_changes_nothing e id ids rows u =
    let (r, c, k) = unreachable_batch e ids rows (start rows) u (refl, refl, refl) in
    (
      elim (Bool-cases (unsynced (row_at id rows))) [
        | inl q ↦ rw q (unreachable_one e id rows (feed_info e id rows) u)
        | inr q ↦ rw q refl
      ],
      r,
      k,
    )

feed_of_row :
    (e : Env) (id : Text) (rows : Rows) (feed : Feed)
    → unsynced (row_at id rows) ≡ true
    → feed_info e id rows ≡ some feed
    → feed_one e id rows ≡ fed_with e id rows (e.sink 0 feed)
unfolding feed_one
feed_of_row e id rows feed h k = rw (h, k) refl

-- The rows that an answer of Parser leaves, where the statements succeed.
abbrev pub rows_after : ℕ → Text → Rows → Answer → Rows
rows_after now id rows accepted = update_at id (handed_off now) rows
rows_after now id rows unavailable = rows
rows_after now id rows rejected = update_at id attempted rows

fed_with_lem :
    (e : Env) (id : Text) (rows : Rows) (x : Answer)
    → e.hand_off_fails id ≡ false
    → e.reject_fails id ≡ false
    → fed_with e id rows x ≡ rows_after e.now id rows x
unfolding mark_handed_off mark_rejected
fed_with_lem e id rows accepted f g = rw (fed_with, f) refl
fed_with_lem e id rows unavailable f g = refl
fed_with_lem e id rows rejected f g = rw (fed_with, g) refl

-- FeedOne hands off an asset that is not synced however many attempts it has had, if its feed can be
-- read and the statements on it succeed: where Parser accepts it, its row is synced, stamped and has
-- one attempt more; where Parser refuses it, its row has one attempt more; no other row changes.
feed_one_counts :
    (e : Env) (id : Text) (rows : Rows) (feed : Feed)
    → unsynced (row_at id rows) ≡ true
    → feed_info e id rows ≡ some feed
    → e.hand_off_fails id ≡ false
    → e.reject_fails id ≡ false
    → feed_one e id rows ≡ rows_after e.now id rows (e.sink 0 feed)
feed_one_counts e id rows feed h k f g =
    feed_of_row e id rows feed h k ∙ fed_with_lem e id rows (e.sink 0 feed) f g
