-- ===== src/Backfill/Retry/Ladder.antt =====
-- The ledger's schedule: the SQL ladder against the Go ladder, repeated failures, independence.
use nimo_os_photos.Prelude.{
  ℕ, zero, suc, ◌+◌, ◌≤◌, ◌≡◌, refl, ap, ◌∙◌, ◌≢◌, Bool, true, false, Option, none, some, List, [],
  ◌∷◌, ◌++◌, Text, lookup, lookup-insert, lookup-delete, ltb, leb, ◌==◌, min, add-zero,
  if◌then◌else◌, length, arith,
}
use nimo_os_photos.Backfill.Retry.{
  Key, key_eq, key_eq_iff, key_Eq, Failure, Ledger, milliseconds, backfill_retry_delay,
  backfill_retry_delays, case_delay, bump, record_backfill_failure, clear_backfill_failure,
  eligible,
}

-- The delay as nested tests on the count.
delay_table :
    (n : ℕ)
    → milliseconds (backfill_retry_delay n) ≡ (
        if ltb n 2
        then 300_000
        else if n == 2
        then 900_000
        else if n == 3
        then 3_600_000
        else if n == 4
        then 21_600_000
        else 86_400_000)
unfolding backfill_retry_delay
delay_table zero = refl
delay_table (suc zero) = refl
delay_table (suc (suc zero)) = refl
delay_table (suc (suc (suc zero))) = refl
delay_table (suc (suc (suc (suc zero)))) = refl
delay_table (suc (suc (suc (suc (suc n))))) = ground arith

-- The CASE ladder of the upsert, capped at the number of delays, is the Go ladder at every count
-- from 1 on.
case_delay-backfill_retry_delay :
    (n : ℕ)
    → 1 ≤ n
    → case_delay (min n (length backfill_retry_delays)) ≡ milliseconds (backfill_retry_delay n)
unfolding case_delay
case_delay-backfill_retry_delay n h = ground (arith, delay_table n)

-- The delay never falls as failures accumulate, and lies between 5 minutes and 24 hours.
pub delay_bounds :
    (n m : ℕ)
    → n ≤ m
    → (milliseconds (backfill_retry_delay n) ≤ milliseconds (backfill_retry_delay m))
      × (300_000 ≤ milliseconds (backfill_retry_delay n))
      × (milliseconds (backfill_retry_delay m) ≤ 86_400_000)
delay_bounds n m h = ground (arith, delay_table n, delay_table m)

abbrev fails_of : Option Failure → ℕ
fails_of none = 0
fails_of (some f) = f.fail_count

-- The row of a key that has failed `n` times, the last time at `now`.
abbrev pub failed_row : ℕ → ℕ → Text → Failure
failed_row n now_ms msg = record {
  fail_count = n;
  last_fail_at = now_ms;
  next_retry_at = now_ms + milliseconds (backfill_retry_delay n);
  last_error = msg;
}

bump_lem :
    (now_ms : ℕ) (msg : Text) (f : Option Failure)
    → bump now_ms msg f ≡ failed_row (fails_of f + 1) now_ms msg
unfolding bump
bump_lem now_ms msg none = refl
bump_lem now_ms msg (some f) = rw (case_delay-backfill_retry_delay (f.fail_count + 1) (omega arith))

key_eq_refl : (key : Key) → key_eq key key ≡ true
key_eq_refl key = (key_eq_iff key key).1 refl

key_eq_ne : (a b : Key) → a ≢ b → key_eq a b ≡ false
key_eq_ne a b h = ground (arith, key_eq_iff a b)

-- A recorded failure.
pub lookup-record :
    (key other : Key) (now_ms : ℕ) (msg : Text) (t : Ledger)
    → lookup other (record_backfill_failure false key now_ms msg t) ≡ (
        if key_eq key other
        then some (failed_row (fails_of (lookup key t) + 1) now_ms msg)
        else lookup other t)
unfolding record_backfill_failure
lookup-record key other now_ms msg t = rw (lookup-insert, bump_lem)

-- Failures of one key one after the other, oldest first.
abbrev pub record_all : Key → List (ℕ × Text) → Ledger → Ledger
record_all key [] t = t
record_all key ((now_ms, msg) ∷ es) t =
    record_all key es (record_backfill_failure false key now_ms msg t)

record_all_lem :
    (key : Key) (es : List (ℕ × Text)) (now_ms : ℕ) (msg : Text) (t : Ledger)
    → lookup key (record_all key (es ++ (now_ms, msg) ∷ []) t)
      ≡ some (failed_row (fails_of (lookup key t) + length es + 1) now_ms msg)
record_all_lem key [] now_ms msg t = rw (lookup-record, key_eq_refl, add-zero)
record_all_lem key ((u, m) ∷ es) now_ms msg t =
    record_all_lem key es now_ms msg (record_backfill_failure false key u m t)
    ∙ rw (lookup-record, key_eq_refl) (ap (λ k. some (failed_row k now_ms msg)) (omega arith))

-- Failures on a key without a row, the last one at `now`, leave the row that counts them all, with the
-- last error and with the next retry after the Go ladder's delay for that count. The key is then
-- eligible exactly from that time on.
pub record_all_schedules :
    (key : Key) (es : List (ℕ × Text)) (now_ms : ℕ) (msg : Text) (t : Ledger)
    → lookup key t ≡ none
    → let t' = record_all key (es ++ (now_ms, msg) ∷ []) t in
      (lookup key t' ≡ some (failed_row (length es + 1) now_ms msg))
      × ((at : ℕ)
          → eligible key at t'
            ≡ leb (now_ms + milliseconds (backfill_retry_delay (length es + 1))) at)
unfolding eligible
record_all_schedules key es now_ms msg t e = (row, λ at. rw row (ground arith))
  where
    row :
        lookup key (record_all key (es ++ (now_ms, msg) ∷ []) t)
        ≡ some (failed_row (length es + 1) now_ms msg)
    row =
        record_all_lem key es now_ms msg t
        ∙ rw e (ap (λ k. some (failed_row k now_ms msg)) (omega arith))

-- A failure of one key, and clearing it, leave the eligibility of every other key as it was; clearing
-- makes the key itself eligible at once; a failed statement changes nothing.
ledger_independent :
    (fault : Bool) (key other : Key) (now_ms at : ℕ) (msg : Text) (t : Ledger)
    → key ≢ other
    → (eligible other at (record_backfill_failure fault key now_ms msg t) ≡ eligible other at t)
      × (eligible other at (clear_backfill_failure fault key t) ≡ eligible other at t)
      × (eligible key at (clear_backfill_failure false key t) ≡ true)
unfolding eligible clear_backfill_failure record_backfill_failure
ledger_independent true key other now_ms at msg t h = (refl, refl, rw (lookup-delete, key_eq_refl))
ledger_independent false key other now_ms at msg t h = (
  rw (lookup-insert, key_eq_ne key other h),
  rw (lookup-delete, key_eq_ne key other h),
  rw (lookup-delete, key_eq_refl),
)
