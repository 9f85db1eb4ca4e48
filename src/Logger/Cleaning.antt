-- ===== src/Logger/Cleaning.antt =====
-- `CheckLogFile`: which log files are removed when a new day begins.
use xchg.Base.{ℕ, ◌*◌, ◌≡◌, false, Option, none, some, List, ◌++◌, ltb, if◌then◌else◌}
use mathlib.Core.List.{Permᴰ}
use mathlib.Core.List.Permᴰ
use xchg.Texts.{codes}
use xchg.Storage.{elapsed, seconds}
use xchg.Logger.{Entry, Log}

-- The log file of a day: the text of its date, and what that text stands for.
pub record Day : Type 0 where
  pub text : List ℕ
  pub date : ℕ
  pub size : ℕ
  pub mod_time : ℕ

abbrev pub log_entry : Day → Entry
log_entry d = record {
  name = d.text ++ codes ".log";
  is_dir = false;
  size = d.size;
  mod_time = d.mod_time;
}

module _ (parse_date : List ℕ → Option ℕ) (c : Log) (now : ℕ) where
  -- The path of the log file of a day that is too long ago.
  abbrev pub expired : Day → Option (List ℕ)
  expired d =
      if ltb (seconds (c.log_depth_days * 24 * 3600)) (elapsed now d.date)
      then some (c.logs_path ++ (codes "/" ++ (d.text ++ codes ".log")))
      else none

  abbrev pub IsDated : Day → Type 0
  IsDated d = parse_date d.text ≡ some d.date
