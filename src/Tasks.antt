-- ===== src/Tasks.antt =====
-- service/tasks.go: the registry of running tasks, its publish throttling and its stale sweeper.
-- Go's maps are association lists; time is nanoseconds; a publish is a task that the call returns.
pub mod Keys
pub mod Sweep
mod Examples
use nimo_os_photos.Prelude.{
  ℕ, ◌+◌, ◌-◌, ◌*◌, ◌≡◌, refl, Bool, true, false, ◌&&◌, ◌||◌, not, Option, none, some, List, [],
  ◌∷◌, ◌++◌, map, Text, text, text_eq, lookup, insert, delete, ltb, leb, ltb_ℤ, Float64,
  if◌then◌else◌, is_some, text_Eq, ℤ,
}

module _ (fl : Float64) where
  open fl use {F, lit, lt, div, truncate}

  pub record Task : Type 0 where
    pub id : Text
    pub kind : Text  -- the field Type
    pub label : Text
    pub current : ℕ
    pub total : ℕ
    pub added : ℕ
    pub progress : F
    pub status : Text
    pub eta_seconds : ℕ
    pub started_at : ℕ
    pub error : Text
    pub error_key : Text
    pub error_params : List (Text × Text)

  pub record TaskRegistry : Type 0 where
    pub tasks : List (Text × Task)
    pub last_pub : List (Text × ℕ)
    pub last_pct : List (Text × F)
    pub last_st : List (Text × Text)
    pub last_seen : List (Text × ℕ)
    pub has_pub : Bool  -- pub != nil

  pub new_task_registry : Bool → TaskRegistry
  new_task_registry has_pub = record {
    tasks = [];
    last_pub = [];
    last_pct = [];
    last_st = [];
    last_seen = [];
    has_pub = has_pub;
  }

  pub bucket_crossed : F → F → F → Bool
  bucket_crossed prev next step =
      if not (lt (lit 0 1) step)
      then false
      else ltb_ℤ (truncate (div prev step)) (truncate (div next step))

  -- 500 * time.Millisecond
  abbrev pub publish_interval : ℕ
  publish_interval = 500_000_000

  -- A key that a map does not hold reads as the zero value.
  abbrev pub or_zero : {A : Type 0} → A → Option A → A
  or_zero z none = z
  or_zero z (some a) = a

  abbrev pub overdue : ℕ → Option ℕ → Bool
  overdue now none = true
  overdue now (some prev) = leb publish_interval (now - prev)

  -- From what the maps hold for the key: the last publish, its progress and its status.
  publishes : Option ℕ → Option F → Option Text → Task → ℕ → Bool
  publishes prev_pub prev_pct prev_st t now =
      not (is_some prev_pub)
      || not (text_eq t.status (or_zero [] prev_st))
      || bucket_crossed (or_zero (lit 0 1) prev_pct) t.progress (lit 1 100)
      || overdue now prev_pub

  pub should_publish : TaskRegistry → Task → ℕ → Bool
  unfolding publishes
  should_publish r t now =
      publishes (lookup t.id r.last_pub) (lookup t.id r.last_pct) (lookup t.id r.last_st) t now

  -- The new registry, and the tasks published.
  pub upsert : TaskRegistry → Task → ℕ → TaskRegistry × List Task
  upsert r t now =
      let kept : TaskRegistry = record r {
        tasks = insert t.id t r.tasks;
        last_seen = insert t.id now r.last_seen;
      } in
      let marked : TaskRegistry = record kept {
        last_pub = insert t.id now r.last_pub;
        last_pct = insert t.id t.progress r.last_pct;
        last_st = insert t.id t.status r.last_st;
      } in
      if should_publish r t now then (marked, if r.has_pub then t ∷ [] else []) else (kept, [])

  pub remove : TaskRegistry → Text → TaskRegistry
  remove r id = record r {
    tasks = delete id r.tasks;
    last_pub = delete id r.last_pub;
    last_pct = delete id r.last_pct;
    last_st = delete id r.last_st;
    last_seen = delete id r.last_seen;
  }

  pub task_list : TaskRegistry → List Task
  task_list r = map (λ p. p.1) r.tasks

  abbrev pub finalise : Task → Task
  finalise t = record t { status = text "done"; progress = lit 1 1 }

  -- The tests of the loop of sweepStale, for what lastSeen and tasks hold for a key.
  pub is_stale : ℕ → ℕ → Option ℕ → Option Task → Bool
  is_stale stale_after now seen none = false
  is_stale stale_after now seen (some t) =
      text_eq t.status (text "running") && ltb stale_after (now - or_zero t.started_at seen)

  -- One round of the loop: the task, if it is stale, is finalised and its entries are deleted.
  sweep_key : TaskRegistry → ℕ → ℕ → Text → Option Task → TaskRegistry × List Task
  sweep_key r stale_after now id none = (r, [])
  sweep_key r stale_after now id (some t) =
      if is_stale stale_after now (lookup id r.last_seen) (some t)
      then (remove r id, finalise t ∷ [])
      else (r, [])

  sweep_keys : TaskRegistry → ℕ → ℕ → List Text → TaskRegistry × List Task
  sweep_keys r stale_after now [] = (r, [])
  sweep_keys r stale_after now (id ∷ ids) =
      let (r', out) = sweep_key r stale_after now id (lookup id r.tasks) in
      let (r'', outs) = sweep_keys r' stale_after now ids in (r'', out ++ outs)

  -- The new registry and the stale tasks, each published if there is a publisher.
  pub sweep_stale : TaskRegistry → ℕ → ℕ → TaskRegistry × List Task
  unfolding sweep_keys sweep_key
  sweep_stale r stale_after now = sweep_keys r stale_after now (map (λ p. p.0) r.tasks)
