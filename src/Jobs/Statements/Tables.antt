-- ===== src/Jobs/Statements/Tables.antt =====
-- UPDATE on a table of relay_job rows.
use oc_control_plane.Prelude.{ℕ, Bool, ◌&&◌, Option, none, some, List, map, ◌==◌, if◌then◌else◌}
use oc_control_plane.Jobs.Row.{Job}

-- `WHERE job_id = $1 AND org_id = $2`.
abbrev pub is_row : ℕ → ℕ → Job → Bool
is_row org id j = (j.job_id == id) && (j.org_id == org)

-- `UPDATE relay_job SET … WHERE …`, and the number of rows that it touches.
abbrev pub update : (Job → Bool) → (Job → Job) → List Job → List Job
update test write = map (λ j. if test j then write j else j)

-- `COALESCE(a, b)`.
abbrev pub coalesce : Option ℕ → ℕ → Option ℕ
coalesce none b = some b
coalesce (some a) b = some a
