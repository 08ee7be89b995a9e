-- ===== src/Sys/Pipe/Stranded.antt =====
-- A pipe of src/kernel/sys/pipe.c notes one waiting reader only: what that means for two.
use alcor2os.Base.{ℕ, ◌≢◌, Option, some}
use alcor2os.Sys.Pipe.{World}

-- No field of the pipe names the process.
abbrev pub Unnoted : World → ℕ → Type 0
Unnoted w p = (w.waiting_reader ≢ some p) × (w.waiting_writer ≢ some p)
