-- ===== src/Files.antt =====
-- What the program sees of a file system: files and directories with their modes, other processes
-- that change them between its calls, and calls that fail. A path has its last component first.
pub mod Laws
pub mod Steps
pub mod Beats
use shex.Prelude.{
  ℕ, ◌+◌, ◌/◌, ◌%◌, Bool, true, false, ◌&&◌, Option, none, some, is_some, List, [], ◌∷◌, ◌++◌,
  Bytes, codes, eq, take, ◌==◌, if◌then◌else◌,
}
use shex.Result.{
  ErrorKind, not_found, already_exists, other_kind, io, Error, Result, ok, err, Exec, capture, pure,
  demand, gets, proceed, ◌>>=◌, ◌>>◌, not_private,
}

abbrev pub FilePath : Type 0
FilePath = List Bytes

-- `join` of one component
abbrev pub join : FilePath → Bytes → FilePath
join path name = name ∷ path

abbrev pub parent : FilePath → Option FilePath
parent [] = none
parent (name ∷ path) = some path

unfoldable pub eq_path : FilePath → FilePath → Bool
eq_path [] [] = true
eq_path (a ∷ p) (b ∷ q) = eq a b && eq_path p q
eq_path _ _ = false

pub record File : Type 0 where
  pub bytes : Bytes
  pub mode : ℕ

module _ {ℓ} {A : Type ℓ} where
  unfoldable pub find : FilePath → List (FilePath × A) → Option A
  find path [] = none
  find path ((p, a) ∷ m) = if eq_path p path then some a else find path m

  unfoldable pub without : FilePath → List (FilePath × A) → List (FilePath × A)
  without path [] = []
  without path ((p, a) ∷ m) =
      let rest = without path m in if eq_path p path then rest else (p, a) ∷ rest

  unfoldable pub put : FilePath → A → List (FilePath × A) → List (FilePath × A)
  unfolding without
  put path a m = (path, a) ∷ without path m

-- `dirs` has the modes of directories.
pub record Tree : Type 0 where
  pub files : List (FilePath × File)
  pub dirs : List (FilePath × ℕ)

-- A call that is `torn` has written its first bytes only.
pub data Fate : Type 0 where
  fine denied : Fate
  torn : ℕ → Fate

-- What happens at one call: what others do before it, and its fate.
pub record Beat : Type 0 where
  pub others : Tree → Tree
  pub fate : Fate

-- With no beats left nobody else acts, and no call fails of itself.
pub record Disk : Type 0 where
  pub tree : Tree
  pub beats : List Beat

-- a disk that nobody else uses and whose calls do not fail of themselves
abbrev pub still : Tree → Disk
still t = record { tree = t; beats = [] }

abbrev failure : {A : Type 0} → Result A
failure = err (io other_kind)

abbrev pub fated : {A : Type 0} → Fate → Exec Tree A → (ℕ → Tree → Tree) → Exec Tree A
fated fine call part t = call t
fated denied call part t = (failure, t)
fated (torn n) call part t = (failure, part n t)

unfoldable pub attempt : {A : Type 0} → Exec Tree A → (ℕ → Tree → Tree) → List Beat → Exec Disk A
attempt call part [] d = let (r, t) = call d.tree in (r, record { tree = t; beats = [] })
attempt call part (b ∷ bs) d =
    let (r, t) = fated b.fate call part (b.others d.tree) in (r, record { tree = t; beats = bs })

-- a call that does all of its work or nothing
abbrev pub call : {A : Type 0} → Exec Tree A → Exec Disk A
call c d = attempt c (λ n t. t) d.beats d

abbrev pub set_files : List (FilePath × File) → Tree → Tree
set_files files t = record t { files = files }

abbrev found_file : {A : Type 0} → Option File → (File → A) → Result A
found_file none f = err (io not_found)
found_file (some file) f = ok (f file)

-- `fs::read`
abbrev pub read : FilePath → Exec Disk Bytes
read path = call (λ t. (found_file (find path t.files) (λ file. file.bytes), t))

-- the mode that `fs::metadata` tells
abbrev pub mode_of : FilePath → Exec Disk ℕ
mode_of path = call (λ t. (found_file (find path t.files) (λ file. file.mode), t))

abbrev was_seen : Result Bool → Bool
was_seen (ok there) = there
was_seen (err e) = false

-- `Path::exists` of a file, which takes a failure for its absence
abbrev pub exists : FilePath → Exec Disk Bool
exists path = do
  seen ← capture (call (λ t. (ok (is_some (find path t.files)), t)))
  pure (was_seen seen)

abbrev pub in_directory : {A : Type 0} → FilePath → Exec Tree A → Exec Tree A
in_directory [] c t = c t
in_directory (name ∷ dir) c t = if is_some (find dir t.dirs) then c t else (err (io not_found), t)

abbrev emptied : ℕ → Option File → File
emptied mode none = record { bytes = []; mode = mode }
emptied mode (some file) = record file { bytes = [] }

-- `OpenOptions` with `create` and `truncate`: a file that is there keeps its mode.
abbrev pub open_create : FilePath → ℕ → Exec Disk (Unit {0})
open_create path mode = call (
    in_directory path
      (λ t. (ok tt, set_files (put path (emptied mode (find path t.files)) t.files) t)))

abbrev pub new_file : FilePath → ℕ → Option File → Exec Tree (Unit {0})
new_file path mode (some file) t = (err (io already_exists), t)
new_file path mode none t =
    (ok tt, set_files (put path (record { bytes = []; mode = mode }) t.files) t)

-- `OpenOptions` with `create_new`
abbrev pub open_new : FilePath → ℕ → Exec Disk (Unit {0})
open_new path mode = call (in_directory path (λ t. new_file path mode (find path t.files) t))

abbrev truncated : FilePath → Option File → Exec Tree (Unit {0})
truncated path none t = (err (io not_found), t)
truncated path (some file) t = (ok tt, set_files (put path (record file { bytes = [] }) t.files) t)

-- `OpenOptions` with `truncate` alone
abbrev pub open_truncate : FilePath → Exec Disk (Unit {0})
open_truncate path = call (λ t. truncated path (find path t.files) t)

abbrev pub changed : FilePath → (File → File) → Option File → Tree → Tree
changed path f none t = t
changed path f (some file) t = set_files (put path (f file) t.files) t

-- `write_all` to the file that was opened last, from its start
abbrev pub write_all : FilePath → Bytes → Exec Disk (Unit {0})
write_all path bytes d =
    attempt
      (λ t. (ok tt, changed path (λ file. record file { bytes = bytes }) (find path t.files) t))
      (λ n t. changed path (λ file. record file { bytes = take n bytes }) (find path t.files) t)
      d.beats d

-- `sync_all`
abbrev pub sync_all : Exec Disk (Unit {0})
sync_all = call (λ t. (ok tt, t))

abbrev pub set_mode : FilePath → ℕ → Exec Disk (Unit {0})
set_mode path mode =
    call (λ t. (ok tt, changed path (λ file. record file { mode = mode }) (find path t.files) t))

abbrev pub moved : FilePath → FilePath → Option File → Exec Tree (Unit {0})
moved from to none t = (err (io not_found), t)
moved from to (some file) t = (ok tt, set_files (put to file (without from t.files)) t)

-- `fs::rename`
abbrev pub rename : FilePath → FilePath → Exec Disk (Unit {0})
rename from to = call (λ t. moved from to (find from t.files) t)

abbrev pub linked : FilePath → Option File → Option File → Exec Tree (Unit {0})
linked to (some file) none t = (ok tt, set_files (put to file t.files) t)
linked to (some file) (some other) t = (err (io already_exists), t)
linked to none other t = (err (io not_found), t)

-- `fs::hard_link`. The program writes to neither name afterwards.
abbrev pub hard_link : FilePath → FilePath → Exec Disk (Unit {0})
hard_link from to = call (λ t. linked to (find from t.files) (find to t.files) t)

abbrev pub deleted : FilePath → Option File → Exec Tree (Unit {0})
deleted path none t = (err (io not_found), t)
deleted path (some file) t = (ok tt, set_files (without path t.files) t)

-- `fs::remove_file`
abbrev pub remove_file : FilePath → Exec Disk (Unit {0})
remove_file path = call (λ t. deleted path (find path t.files) t)

-- the directories of a path that were missing
unfoldable pub made : FilePath → List (FilePath × ℕ) → List (FilePath × ℕ)
made [] dirs = if is_some (find [] dirs) then dirs else put [] 0o755 dirs
made (name ∷ path) dirs =
    let above = made path dirs in
    if is_some (find (name ∷ path) above) then above else put (name ∷ path) 0o755 above

-- `fs::create_dir_all`
abbrev pub create_dir_all : FilePath → Exec Disk (Unit {0})
create_dir_all path = call (λ t. (ok tt, record t { dirs = made path t.dirs }))

-- `fs::set_permissions` of a directory
abbrev pub set_dir_mode : FilePath → ℕ → Exec Disk (Unit {0})
set_dir_mode path mode = call (λ t. (ok tt, record t { dirs = put path mode t.dirs }))

abbrev below : FilePath → List (FilePath × File) → List FilePath
below dir [] = []
below dir (([], file) ∷ m) = below dir m
below dir ((name ∷ above, file) ∷ m) =
    let rest = below dir m in if eq_path above dir then (name ∷ above) ∷ rest else rest

-- the files that `fs::read_dir` lists
abbrev pub read_dir : FilePath → Exec Disk (List FilePath)
read_dir dir =
    call
      (λ t. (if is_some (find dir t.dirs) then ok (below dir t.files) else err (io not_found), t))

-- `ensure_private_directory`, on Unix
unfoldable pub ensure_private_directory : FilePath → Exec Disk (Unit {0})
ensure_private_directory path = do create_dir_all path; set_dir_mode path 0o700

-- `mode & 0o077 != 0`
abbrev pub is_private : ℕ → Bool
is_private mode = mode % 64 == 0

-- `check_private_permissions`, on Unix
unfoldable pub check_private_permissions : FilePath → Exec Disk (Unit {0})
check_private_permissions path = do mode ← mode_of path; demand (is_private mode) not_private
