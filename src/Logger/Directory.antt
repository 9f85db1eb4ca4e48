-- ===== src/Logger/Directory.antt =====
-- `GetDir`.
use xchg.Base.{
  ℕ, ◌≡◌, refl, sym, ◌∙◌, inl, inr, Bool, true, false, some, List, [], ◌∷◌, ◌++◌, map, All,
  Bool-cases,
}
use mathlib.Core.Bool.{true≢false}
use mathlib.Core.List.{Permᴰ, filter_map, filter_map-cons-none, filter_map-cons-some}
use mathlib.Core.List.Permᴰ
use xchg.Sorting.{text_lt, sort_by, IsAbove, IsSorted, sort_by-IsSorted, sort_by-Perm, sort_by-All}
use xchg.Logger.{Entry, FileInfo, file_info, directory_of, file_of, file_name, get_dir}

-- A directory may not come after a file, and a name not after a greater one of its kind.
abbrev pub Precedes : FileInfo → FileInfo → Type 0
Precedes a b = (a.dir ≡ false → b.dir ≡ false) × (a.dir ≡ b.dir → text_lt b.name a.name ≡ false)

abbrev pub IsListing : List FileInfo → Type 0
IsListing [] = Unit
IsListing (a ∷ xs) = All (Precedes a) xs × IsListing xs

abbrev IsKind : Bool → FileInfo → Type 0
IsKind b f = f.dir ≡ b

module _ (path : List ℕ) where
  directories-IsKind : (es : List Entry) → All (IsKind true) (filter_map (directory_of path) es)
  unfolding file_info filter_map
  directories-IsKind [] = tt
  directories-IsKind (e ∷ es) = elim (Bool-cases e.is_dir) [
    | inl is ↦
        rw (filter_map-cons-some (directory_of path) e es {b = file_info path e} (rw is refl))
          (is, directories-IsKind es)
    | inr isnt ↦
        rw (filter_map-cons-none (directory_of path) e es (rw isnt refl)) (directories-IsKind es)
  ]

  files-IsKind : (es : List Entry) → All (IsKind false) (filter_map (file_of path) es)
  unfolding file_info filter_map
  files-IsKind [] = tt
  files-IsKind (e ∷ es) = elim (Bool-cases e.is_dir) [
    | inl is ↦ rw (filter_map-cons-none (file_of path) e es (rw is refl)) (files-IsKind es)
    | inr isnt ↦
        rw (filter_map-cons-some (file_of path) e es {b = file_info path e} (rw isnt refl))
          (isnt, files-IsKind es)
  ]

  pub kinds-Perm :
      (es : List Entry)
      → Permᴰ
          (filter_map (directory_of path) es ++ filter_map (file_of path) es)
          (map (file_info path) es)
  unfolding filter_map
  kinds-Perm [] = Permᴰ.nil
  kinds-Perm (e ∷ es) = elim (Bool-cases e.is_dir) [
    | inl is ↦
        rw
          (
            filter_map-cons-some (directory_of path) e es {b = file_info path e} (rw is refl),
            filter_map-cons-none (file_of path) e es (rw is refl),
          )
          (Permᴰ.cons refl (kinds-Perm es))
    | inr isnt ↦
        rw
          (
            filter_map-cons-none (directory_of path) e es (rw isnt refl),
            filter_map-cons-some (file_of path) e es {b = file_info path e} (rw isnt refl),
          )
          (Permᴰ.trans
            (Permᴰ.middle (file_info path e) (filter_map (directory_of path) es)
              (filter_map (file_of path) es))
            (Permᴰ.cons refl (kinds-Perm es)))
  ]

  pub sorted-Perm :
      (es : List Entry)
      → Permᴰ
          (sort_by file_name (filter_map (directory_of path) es)
            ++ sort_by file_name (filter_map (file_of path) es))
          (map (file_info path) es)
  sorted-Perm es =
      Permᴰ.trans
        (Permᴰ.append_right (sort_by file_name (filter_map (file_of path) es))
          (sort_by-Perm file_name (filter_map (directory_of path) es)))
        (Permᴰ.trans
          (Permᴰ.append_left (filter_map (directory_of path) es)
            (sort_by-Perm file_name (filter_map (file_of path) es)))
          (kinds-Perm es))

same_kind :
    (b : Bool) (a : FileInfo) (xs : List FileInfo)
    → IsKind b a
    → All (IsKind b) xs
    → All (IsAbove file_name a) xs
    → All (Precedes a) xs
same_kind b a [] k ks s = tt
same_kind b a (x ∷ xs) k (kx, ks) (le, s) =
    ((λ e. kx ∙ sym k ∙ e, λ e. le), same_kind b a xs k ks s)

files_after :
    (a : FileInfo) (xs : List FileInfo)
    → IsKind true a
    → All (IsKind false) xs
    → All (Precedes a) xs
files_after a [] k ks = tt
files_after a (x ∷ xs) k (kx, ks) =
    ((λ e. kx, λ e. absurd (true≢false (sym k ∙ e ∙ kx))), files_after a xs k ks)

both : (P : FileInfo → Type 0) (xs ys : List FileInfo) → All P xs → All P ys → All P (xs ++ ys)
both P [] ys h k = k
both P (x ∷ xs) ys (p, h) k = (p, both P xs ys h k)

files-IsListing :
    (xs : List FileInfo) → All (IsKind false) xs → IsSorted file_name xs → IsListing xs
files-IsListing [] k s = tt
files-IsListing (a ∷ xs) (ka, k) (above, s) =
    (same_kind false a xs ka k above, files-IsListing xs k s)

all-IsListing :
    (ds fs : List FileInfo)
    → All (IsKind true) ds
    → IsSorted file_name ds
    → All (IsKind false) fs
    → IsSorted file_name fs
    → IsListing (ds ++ fs)
all-IsListing [] fs kd sd kf sf = files-IsListing fs kf sf
all-IsListing (a ∷ ds) fs (ka, kd) (above, sd) kf sf = (
  both (Precedes a) ds fs (same_kind true a ds ka kd above) (files_after a fs ka kf),
  all-IsListing ds fs kd sd kf sf,
)

-- What `GetDir` returns of a directory that can be read has each of its entries once, described by
-- `file_info`; the directories come before the files, and each kind in the order of the names.
pub get_dir-IsListing :
    (path : List ℕ) (es : List Entry)
    → (infos : List FileInfo) × (get_dir path (some es) ≡ some infos)
      × IsListing infos
      × Permᴰ infos (map (file_info path) es)
unfolding get_dir
get_dir-IsListing path es = (
  sort_by file_name (filter_map (directory_of path) es)
      ++ sort_by file_name (filter_map (file_of path) es),
  refl,
  all-IsListing (sort_by file_name (filter_map (directory_of path) es))
      (sort_by file_name (filter_map (file_of path) es))
      (sort_by-All file_name (IsKind true) (filter_map (directory_of path) es)
        (directories-IsKind path es))
      (sort_by-IsSorted file_name (filter_map (directory_of path) es))
      (sort_by-All file_name (IsKind false) (filter_map (file_of path) es) (files-IsKind path es))
      (sort_by-IsSorted file_name (filter_map (file_of path) es)),
  sorted-Perm path es,
)
