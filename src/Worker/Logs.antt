-- ===== src/Worker/Logs.antt =====
-- internal/worker/logbuf.go: the lines that a handler logs, until they are written by AppendLogs of
-- internal/jobs/lease.go.
use job_scheduling.Base.{
  ℕ, ◌+◌, ◌≤◌, ◌≡◌, List, [], ◌∷◌, ◌++◌, String, length, leb, if◌then◌else◌, arith, length-append,
  append-nil, append_assoc, sym, refl, ap, ◌∙◌, Option, none, some, Bool, true, false, map,
}
use job_scheduling.Store.{DbError}

-- LogLine of internal/jobs/lease.go.
pub record LogLine : Type 0 where
  pub level : String
  pub message : String

abbrev pub max_pending : ℕ
max_pending = 1000

-- add.
unfoldable pub add : String → String → List LogLine → List LogLine
add level message lines =
    if leb max_pending (length lines)
    then lines
    else lines ++ record { level = level; message = message } ∷ []

-- take: the lines, and the buffer after.
unfoldable pub take_lines : List LogLine → List LogLine × List LogLine
take_lines lines = (lines, [])

-- A row of job_logs.
pub record LogRow : Type 0 where
  pub execution : ℕ
  pub ts : ℕ
  pub line : LogLine

abbrev row_of : ℕ → ℕ → LogLine → LogRow
row_of now exec l = record { execution = exec; ts = now; line = l }

abbrev pub line_of : LogRow → LogLine
line_of r = r.line

-- AppendLogs, with the error of the statement if it has one.
unfoldable pub append_logs :
    Option DbError → ℕ → ℕ → List LogLine → List LogRow → Option DbError × List LogRow
append_logs (some e) now exec lines table = (some e, table)
append_logs none now exec lines table = (none, table ++ map (row_of now exec) lines)

-- writeLogs. An error is printed, and the lines are lost.
unfoldable pub write_logs : Option DbError → ℕ → ℕ → List LogLine → List LogRow → List LogRow
unfolding append_logs
write_logs fault now exec [] table = table
write_logs fault now exec (l ∷ lines) table = (append_logs fault now exec (l ∷ lines) table).1

-- What is done to the buffer: a handler logs a line, or a loop takes the lines and writes them.
pub data Use : Type 0 where
  logs : String → String → Use
  writes : ℕ → Option DbError → Use

-- The buffer and the table after a sequence of uses, for an execution.
unfoldable pub run_uses : ℕ → List Use → List LogLine → List LogRow → List LogLine × List LogRow
unfolding add take_lines write_logs
run_uses exec [] buf table = (buf, table)
run_uses exec (logs level message ∷ us) buf table = run_uses exec us (add level message buf) table
run_uses exec (writes now fault ∷ us) buf table =
    let (out, left) = take_lines buf in run_uses exec us left (write_logs fault now exec out table)

add-le :
    (level message : String) (buf : List LogLine)
    → length buf ≤ 1000
    → length (add level message buf) ≤ 1000
unfolding add
add-le level message buf h =
    ground (arith, length-append buf (record { level = level; message = message } ∷ []))

-- Whatever is logged and written in whatever order, the buffer never holds more than 1000 lines.
log_bounded :
    (exec : ℕ) (us : List Use) (buf : List LogLine) (table : List LogRow)
    → length buf ≤ 1000
    → length (run_uses exec us buf table).0 ≤ 1000
unfolding run_uses take_lines
log_bounded exec [] buf table h = h
log_bounded exec (logs level message ∷ us) buf table h =
    log_bounded exec us _ table (add-le level message buf h)
log_bounded exec (writes now fault ∷ us) buf table h = log_bounded exec us [] _ (omega arith)

-- The lines of the handlers, all of them, in the order they were logged in.
unfoldable pub logged : List Use → List LogLine
logged [] = []
logged (logs level message ∷ us) = record { level = level; message = message } ∷ logged us
logged (writes now fault ∷ us) = logged us

-- No write fails.
unfoldable pub is_calm : List Use → Bool
is_calm [] = true
is_calm (logs level message ∷ us) = is_calm us
is_calm (writes now none ∷ us) = is_calm us
is_calm (writes now (some e) ∷ us) = false

add-all :
    (level message : String) (buf : List LogLine)
    → length buf + 1 ≤ 1000
    → add level message buf ≡ buf ++ record { level = level; message = message } ∷ []
unfolding add
add-all level message buf h = ground arith

lines_added :
    (now exec : ℕ) (lines : List LogLine) (table : List LogRow)
    → map line_of (table ++ map (row_of now exec) lines) ≡ map line_of table ++ lines
lines_added now exec [] [] = refl
lines_added now exec (l ∷ lines) [] = ap (◌∷◌ l) (lines_added now exec lines [])
lines_added now exec lines (r ∷ table) = ap (◌∷◌ r.line) (lines_added now exec lines table)

pub write_logs-failed :
    (e : DbError) (now exec : ℕ) (lines : List LogLine) (table : List LogRow)
    → write_logs (some e) now exec lines table ≡ table
unfolding write_logs append_logs
write_logs-failed e now exec [] table = refl
write_logs-failed e now exec (l ∷ lines) table = refl

pub write_logs-lines :
    (now exec : ℕ) (lines : List LogLine) (table : List LogRow)
    → map line_of (write_logs none now exec lines table) ≡ map line_of table ++ lines
unfolding write_logs append_logs
write_logs-lines now exec [] table = sym (append-nil (map line_of table))
write_logs-lines now exec (l ∷ lines) table = lines_added now exec (l ∷ lines) table

-- Where no write fails, and the lines in the buffer and the uses of it are 1000 at most together, all
-- lines are written, in the order they were logged in: the lines of the table and then those of
-- the buffer are, after, what they were before with the lines that were logged behind them.
pub logs_in_order :
    (exec : ℕ) (us : List Use) (buf : List LogLine) (table : List LogRow)
    → is_calm us ≡ true
    → length buf + length us ≤ 1000
    → let (left, rows) = run_uses exec us buf table in
      map line_of rows ++ left ≡ map line_of table ++ buf ++ logged us
unfolding run_uses take_lines logged is_calm
logs_in_order exec [] buf table c h = sym (append-nil (map line_of table ++ buf))
logs_in_order exec (logs level message ∷ us) buf table c h =
    let one : List LogLine = record { level = level; message = message } ∷ [] in
    let kept = add-all level message buf (omega arith) in
    let rest =
      logs_in_order exec us (add level message buf) table c
        (rw kept (omega (arith, length-append buf one))) in
    let before = map line_of table in
    rest
    ∙ ap (λ l. before ++ l ++ logged us) kept
    ∙ ap (λ l. l ++ logged us) (sym (append_assoc before buf one))
    ∙ append_assoc (before ++ buf) one (logged us)
logs_in_order exec (writes now none ∷ us) buf table c h =
    logs_in_order exec us [] (write_logs none now exec buf table) c (omega arith)
    ∙ ap (λ l. l ++ logged us)
        (append-nil (map line_of (write_logs none now exec buf table))
          ∙ write_logs-lines now exec buf table)
logs_in_order exec (writes now (some e) ∷ us) buf table c h = ground arith
