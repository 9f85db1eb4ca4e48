-- ===== src/Logger/Tests.antt =====
-- The theorems at concrete inputs, and a run.
use xchg.Base.{
  ℕ, ◌+◌, ◌*◌, ◌≡◌, ◌<◌, ◌≤◌, ◌/◌, refl, arith, true, false, Option, none, some, List, [], ◌∷◌,
  length, map,
}
use mathlib.Core.List.{Permᴰ, filter_map}
use xchg.Texts.{codes}
use xchg.Storage.{seconds}
use xchg.Sorting.{sort_by, text_lt}
use xchg.Logger.{
  Entry, FileInfo, Log, unit_of, size_as_string, get_dir, file_name, file_info, extension,
}
use xchg.Logger.Directory.{IsListing, get_dir-IsListing}
use xchg.Logger.Sizes.{size_as_string_bounds}
use xchg.Logger.Cleaning.{Day}

abbrev file : FileInfo
file = record {
  path = codes "logs/a.log";
  name = codes "a.log";
  dir = false;
  name_without_ext = codes "a";
  ext = codes "log";
  size = 1023 * 1024 + 1023;
  date = 0;
  attr = [];
}

size_as_string_bounds_example :
    (file.size / (unit_of file.size).0 < 1024)
    × (0 < file.size → 0 < file.size / (unit_of file.size).0)
    × (length (size_as_string file) ≤ 7)
size_as_string_bounds_example = size_as_string_bounds file (omega arith)

kilobytes : size_as_string file ≡ codes "1023 KB"
unfolding size_as_string
kilobytes = refl

name_of_archive : extension (codes "a.tar.gz") ≡ codes ".gz"
unfolding extension
name_of_archive = refl

abbrev log : Log
log = record {
  logs_path = codes "logs";
  logger_object = none;
  current_log_file_name = [];
  current_log_file = none;
  log_depth_days = 30;
}

-- A day is written by its number here.
abbrev read_date : List ℕ → Option ℕ
read_date [] = none
read_date (c ∷ s) = some (seconds (c * 24 * 3600))

abbrev day : ℕ → Day
day n = record { text = n ∷ []; date = seconds (n * 24 * 3600); size = 5; mod_time = 0 }

abbrev entries : List Entry
entries =
    record { name = codes "b"; is_dir = false; size = 1; mod_time = 0 }
    ∷ record { name = codes "c"; is_dir = true; size = 0; mod_time = 0 }
    ∷ record { name = codes "a"; is_dir = false; size = 2; mod_time = 0 }
    ∷ []

get_dir-IsListing_example :
    (infos : List FileInfo) × (get_dir (codes "logs") (some entries) ≡ some infos)
    × IsListing infos
    × Permᴰ infos (map (file_info (codes "logs")) entries)
get_dir-IsListing_example = get_dir-IsListing (codes "logs") entries

names_of : Option (List FileInfo) → List (List ℕ)
names_of none = []
names_of (some infos) = map file_name infos

sorted_names :
    names_of (get_dir (codes "logs") (some entries)) ≡ codes "c" ∷ codes "a" ∷ codes "b" ∷ []
unfolding names_of get_dir filter_map sort_by file_info text_lt
sorted_names = refl
