-- ===== src/Backfill/Retry.antt =====
-- service/backfillretry.go: the ledger of failed backfills and its escalation ladder. Durations are
-- nanoseconds, as in Go; the table backfill_failures is keyed by (kind, asset_id).
pub mod Ladder
mod Examples
use nimo_os_photos.Prelude.{
  ℕ, zero, suc, ◌+◌, ◌*◌, ◌/◌, ◌-◌, ◌≡◌, ◌↔◌, refl, Bool, true, false, ◌&&◌, not, Option, none,
  some, List, [], ◌∷◌, Text, text_eq, text_eq_iff, Eq, lookup, insert, delete, ltb, leb, ◌==◌, min,
  if◌then◌else◌, length, arith,
}

pub data BackfillKind : Type 0 where
  clip ocr sprite : BackfillKind

abbrev pub kind_eq : BackfillKind → BackfillKind → Bool
kind_eq clip clip = true
kind_eq ocr ocr = true
kind_eq sprite sprite = true
kind_eq _ _ = false

-- The primary key of backfill_failures.
abbrev pub Key : Type 0
Key = BackfillKind × Text

abbrev pub key_eq : Key → Key → Bool
key_eq (k, a) (l, b) = kind_eq k l && text_eq a b

kind_eq→≡ : (k l : BackfillKind) → kind_eq k l ≡ true → k ≡ l
kind_eq→≡ k l h = ground arith

kind_eq_refl : (k : BackfillKind) → kind_eq k k ≡ true
kind_eq_refl clip = refl
kind_eq_refl ocr = refl
kind_eq_refl sprite = refl

pub key_eq_iff : (a b : Key) → (key_eq a b ≡ true) ↔ (a ≡ b)
key_eq_iff (k, a) (l, b) = (
  λ h. ground (arith, kind_eq→≡ k l, text_eq_iff a b),
  λ e. ground (arith, kind_eq_refl k, text_eq_iff a b),
)

instance abbrev pub key_Eq : Eq Key
key_Eq = record { beq = key_eq; beq_iff = key_eq_iff }

pub record Failure : Type 0 where
  pub fail_count : ℕ
  pub last_fail_at : ℕ
  pub next_retry_at : ℕ
  pub last_error : Text

abbrev pub Ledger : Type 0
Ledger = List (Key × Failure)

abbrev minute : ℕ
minute = 60_000_000_000

abbrev hour : ℕ
hour = 60 * minute

-- time.Duration.Milliseconds
abbrev pub milliseconds : ℕ → ℕ
milliseconds d = d / 1_000_000

pub backfill_retry_delays : List ℕ
backfill_retry_delays = (5 * minute) ∷ (15 * minute) ∷ hour ∷ (6 * hour) ∷ (24 * hour) ∷ []

-- Indexing a slice; the index is in range where the program indexes.
index : List ℕ → ℕ → ℕ
index [] i = 0
index (x ∷ xs) zero = x
index (x ∷ xs) (suc i) = index xs i

pub backfill_retry_delay : ℕ → ℕ
unfolding index backfill_retry_delays
backfill_retry_delay fail_count =
    let n = if ltb fail_count 1 then 1 else fail_count in
    let m : ℕ = if ltb (length backfill_retry_delays) n then length backfill_retry_delays else n in
    index backfill_retry_delays (m - 1)

-- CASE n WHEN 1 THEN ? … ELSE ? END, with the five bound parameters.
pub case_delay : ℕ → ℕ
unfolding index backfill_retry_delays
case_delay n =
    if n == 1
    then milliseconds (index backfill_retry_delays 0)
    else if n == 2
    then milliseconds (index backfill_retry_delays 1)
    else if n == 3
    then milliseconds (index backfill_retry_delays 2)
    else if n == 4
    then milliseconds (index backfill_retry_delays 3)
    else milliseconds (index backfill_retry_delays 4)

-- The row that the upsert leaves, from the row that was there.
pub bump : ℕ → Text → Option Failure → Failure
bump now_ms msg none = record {
  fail_count = 1;
  last_fail_at = now_ms;
  next_retry_at = now_ms + milliseconds (backfill_retry_delay 1);
  last_error = msg;
}
bump now_ms msg (some f) = record {
  fail_count = f.fail_count + 1;
  last_fail_at = now_ms;
  next_retry_at = now_ms + case_delay (min (f.fail_count + 1) (length backfill_retry_delays));
  last_error = msg;
}

-- `fault` is an error of db.Exec, which is logged and changes nothing.
pub record_backfill_failure : Bool → Key → ℕ → Text → Ledger → Ledger
record_backfill_failure fault key now_ms msg t =
    if fault then t else insert key (bump now_ms msg (lookup key t)) t

pub clear_backfill_failure : Bool → Key → Ledger → Ledger
clear_backfill_failure fault key t = if fault then t else delete key t

cooling : ℕ → Option Failure → Bool
cooling now_ms none = false
cooling now_ms (some f) = ltb now_ms f.next_retry_at

-- The condition of backfillCooldownSQL: no row of the key with next_retry_at > now.
pub eligible : Key → ℕ → Ledger → Bool
unfolding cooling
eligible key now_ms t = not (cooling now_ms (lookup key t))
