-- ===== src/Logger.antt =====
-- logger/logger.go: the log files of each day, and their directory. The clock, the texts of dates
-- (`time.Format`, `time.Parse`), and what the file system answers are arguments.
mod Names
pub mod Directory
pub mod Sizes
pub mod Cleaning
mod Tests
use xchg.Base.{
  ℕ, zero, suc, ◌+◌, ◌-◌, ◌*◌, ◌/◌, ◌%◌, Bool, true, false, Option, none, some, List, [], ◌∷◌, ◌++◌,
  ltb, leb, ◌==◌, bytes_eq, if◌then◌else◌, length, take, drop,
}
use mathlib.Core.List.{filter_map}
use xchg.Texts.{codes}
use xchg.Sorting.{sort_by}
use xchg.Decimal.{format_int}
use xchg.Storage.{elapsed, seconds}

-- What `ioutil.ReadDir` tells of a file.
pub record Entry : Type 0 where
  pub name : List ℕ
  pub is_dir : Bool
  pub size : ℕ
  pub mod_time : ℕ

pub record FileInfo : Type 0 where
  pub path : List ℕ
  pub name : List ℕ
  pub dir : Bool
  pub name_without_ext : List ℕ
  pub ext : List ℕ
  pub size : ℕ
  pub date : ℕ
  pub attr : List ℕ

unfoldable pub has_dot : List ℕ → Bool
has_dot [] = false
has_dot (c ∷ s) = let rest = has_dot s in if c == b'.' then true else rest

-- `filepath.Ext` of a name: from its last dot on.
unfoldable pub extension : List ℕ → List ℕ
unfolding has_dot
extension [] = []
extension (c ∷ s) =
    let rest = extension s in if has_dot s then rest else (if c == b'.' then c ∷ s else [])

-- `strings.TrimSuffix`.
unfoldable pub trim_suffix : List ℕ → List ℕ → List ℕ
trim_suffix s suffix =
    let n = length s - length suffix in if bytes_eq (drop n s) suffix then take n s else s

-- A file of the directory `path`, as `GetDir` describes it.
unfoldable pub file_info : List ℕ → Entry → FileInfo
unfolding extension trim_suffix
file_info path f = record {
  path = path ++ (codes "/" ++ f.name);
  name = f.name;
  dir = f.is_dir;
  name_without_ext = trim_suffix f.name (extension f.name);
  ext = if f.is_dir then [] else drop 1 (extension f.name);
  size = f.size;
  date = f.mod_time;
  attr = [];
}

-- The two lists of `GetDir`.
abbrev pub directory_of : List ℕ → Entry → Option FileInfo
directory_of path f = if f.is_dir then some (file_info path f) else none

abbrev pub file_of : List ℕ → Entry → Option FileInfo
file_of path f = if f.is_dir then none else some (file_info path f)

abbrev pub file_name : FileInfo → List ℕ
file_name f = f.name

-- `GetDir`; `none` is an error of `ReadDir`.
unfoldable pub get_dir : List ℕ → Option (List Entry) → Option (List FileInfo)
get_dir path none = none
get_dir path (some files) = some (
    sort_by file_name (filter_map (directory_of path) files)
    ++ sort_by file_name (filter_map (file_of path) files))

-- The divisor and the unit of `SizeAsString`.
unfoldable pub unit_of : ℕ → ℕ × List ℕ
unit_of size =
    let u : ℕ × List ℕ = (1, []) in
    let u = if leb 1024 size then (1024, codes "KB") else u in
    let u = if leb (1024 * 1024) size then (1024 * 1024, codes "MB") else u in
    if leb (1024 * 1024 * 1024) size then (1024 * 1024 * 1024, codes "GB") else u

-- `SizeAsString`.
unfoldable pub size_as_string : FileInfo → List ℕ
unfolding unit_of format_int
size_as_string c =
    let (div, uom) = unit_of c.size in
    if c.dir then codes "<DIR>" else format_int (c.size / div) ++ codes " " ++ uom

-- The variables of the package. A file that could not be opened is `none`, also in the logger.
pub record Log : Type 0 where
  pub logs_path : List ℕ
  pub logger_object : Option (Option (List ℕ))
  pub current_log_file_name : List ℕ
  pub current_log_file : Option (List ℕ)
  pub log_depth_days : ℕ

-- `Init`; an error of `MkdirAll` is only printed.
unfoldable pub init : Log → List ℕ → Log
init c path = record c { logs_path = path }

-- The path of a file that is to be removed.
unfoldable pub outdated : (List ℕ → Option ℕ) → ℕ → ℕ → FileInfo → Option (List ℕ)
outdated parse_date depth now f = if f.dir then none else elim (parse_date f.name_without_ext) [
  | none ↦ none
  | some t ↦ if ltb (seconds (depth * 24 * 3600)) (elapsed now t) then some f.path else none
]

-- `logsPath + "/" + today + ".log"`.
unfoldable pub log_file : Log → List ℕ → List ℕ
log_file c today = c.logs_path ++ (codes "/" ++ (today ++ codes ".log"))

-- `CheckLogFile`, and the paths that it removes (an error of `Remove` is ignored). `opened` says
-- whether `OpenFile` succeeds, and `files` is what the directory holds after it.
unfoldable pub check_log_file :
    (List ℕ → Option ℕ) → Log → List ℕ → Bool → Option (List Entry) → ℕ → Log × List (List ℕ)
unfolding outdated log_file get_dir
check_log_file parse_date c today opened files now =
    let name = log_file c today in
    let file = if opened then some name else none in
    if length c.logs_path == 0
    then (c, [])
    else (if bytes_eq name c.current_log_file_name then (c, []) else (
      record c { logger_object = some file; current_log_file_name = name; current_log_file = file },
      elim (get_dir c.logs_path files) [
        | none ↦ []
        | some infos ↦ filter_map (outdated parse_date c.log_depth_days now) infos
      ],
    ))

-- `Println` and `Error`, up to the terminal: the file that gets the line, if any.
unfoldable pub println :
    (List ℕ → Option ℕ)
    → Log
    → List ℕ
    → Bool
    → Option (List Entry)
    → ℕ
    → Option (List ℕ) × Log × List (List ℕ)
unfolding check_log_file
println parse_date c today opened files now =
    let (c', removed) = check_log_file parse_date c today opened files now in
    (elim c'.logger_object [ none ↦ none | some file ↦ file ], c', removed)
