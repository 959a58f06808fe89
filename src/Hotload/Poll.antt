-- ===== src/Hotload/Poll.antt =====
-- src/hotload.c: the scan of the modules' directory, and the table of fingerprints that decides
-- which candidates are promoted. `files` of the table up to `count`.
pub mod Quiet
pub mod Collect
use digit.Base.{
  ℕ, zero, suc, ◌+◌, ◌-◌, Bool, true, false, not, ◌&&◌, ◌||◌, Option, none, some, List, [], ◌∷◌,
  ◌++◌, length, Text, text, str_eq, ltb, leb, ◌==◌, if◌then◌else◌,
}
use digit.Abi.{Limits}
use digit.Hotload.{File, Event, new_candidate, update_candidate, Host, Env, audit}
use digit.Hotload.Promote.{promote}

-- What stat tells of a path.
pub record Status : Type 0 where
  pub is_directory : Bool
  pub is_regular : Bool
  pub modified_time : ℕ
  pub size : ℕ

-- The directory that opendir opened: its names in the order of readdir, and stat.
pub record Directory : Type 0 where
  pub names : List Text
  pub stat : Text → Option Status

abbrev is_hidden : Text → Bool
is_hidden [] = false
is_hidden (c ∷ s) = c == b'.'

abbrev directory_at : Option Status → Bool
directory_at none = false
directory_at (some status) = status.is_directory

abbrev regular_file : Text → Text → Option Status → Option File
regular_file name path none = none
regular_file name path (some status) =
    if status.is_regular
    then some (record {
      module_id = name;
      path = path;
      modified_time = status.modified_time;
      size = status.size;
    })
    else none

-- The library of one directory entry; `none` is `continue`.
unfoldable pub candidate_at : Limits → Text → Directory → Text → Option File
candidate_at limits root directory name =
    let path = root ++ (b'/' ∷ name) in
    let so_path = path ++ text "/bin/" ++ name ++ text ".so" in
    if is_hidden name
      || (length name == 0)
      || leb limits.id_max (length name)
      || leb limits.loader_path_max (length path)
      || not (directory_at (directory.stat path))
      || leb limits.loader_path_max (length so_path)
    then none
    else regular_file name so_path (directory.stat so_path)

-- What digit_hotload_collect leaves: nothing, if the directory could not be opened; the entries that
-- filled the array, if there is one more; or all entries.
pub data Scan : Type 0 where
  unreadable : Scan
  overfull : List File → Scan
  complete : List File → Scan

abbrev collect_next : ℕ → Option File → List File → Option (List File)
collect_next max none files = some files
collect_next max (some file) files =
    if leb max (length files) then none else some (files ++ file ∷ [])

unfoldable pub collect_names : Limits → Text → Directory → List Text → List File → Scan
unfolding candidate_at
collect_names limits root directory [] files = complete files
collect_names limits root directory (name ∷ names) files =
    elim (collect_next limits.registry_max (candidate_at limits root directory name) files) [
      | none ↦ overfull files
      | some more ↦ collect_names limits root directory names more
    ]

-- digit_hotload_collect. No directory is one that could not be opened.
unfoldable pub collect : Limits → Text → Option Directory → Scan
unfolding collect_names
collect limits root none = unreadable
collect limits root (some directory) = collect_names limits root directory directory.names []

-- digit_hotload_find
unfoldable pub find_file : List File → Text → Option File
find_file [] id = none
find_file (f ∷ files) id = if str_eq f.module_id id then some f else find_file files id

-- The entries of a table whose array was written over from its first slot on, while its count stayed.
unfoldable pub written_over : List File → List File → List File
written_over [] current = []
written_over (f ∷ files) [] = f ∷ files
written_over (f ∷ files) (g ∷ current) = g ∷ written_over files current

-- digit_hotload_snapshot: the scan writes into the array of the table itself.
unfoldable pub snapshot : List File → Scan → Bool × List File
unfolding written_over
snapshot files unreadable = (false, files)
snapshot files (overfull current) = (false, written_over files current)
snapshot files (complete current) = (true, current)

-- The slot loop after a promotion that succeeded: whether the fingerprint was committed.
unfoldable pub commit : ℕ → File → List File → Bool × List File
commit max file [] = if leb max 0 then (false, []) else (true, file ∷ [])
commit max file (f ∷ files) =
    let (done, rest) = commit (max - 1) file files in
    if str_eq f.module_id file.module_id then (true, file ∷ files) else (done, f ∷ rest)

-- What the poll keeps: the number of changes, the table, and the rest of the state.
pub record Polled : Type 0 where
  pub changes : ℕ
  pub files : List File
  pub host : Host

abbrev commit_into : ℕ → File → Polled → Bool × List File → Polled
commit_into max file p (true, files) = record p { changes = p.changes + 1; files = files }
commit_into max file p (false, files) = record p { files = files }

abbrev after_promotion : ℕ → File → Polled → Bool × Host → Polled
after_promotion max file p (true, h) =
    commit_into max file (record p { host = h }) (commit max file p.files)
after_promotion max file p (false, h) = record p { host = h }

unfoldable pub is_changed : File → File → Bool
is_changed previous file =
    not (previous.modified_time == file.modified_time) || not (previous.size == file.size)

module _ (env : Env) where
  abbrev attempt : Event → File → Polled → Polled
  attempt event file p =
      after_promotion env.limits.registry_max file p
        (promote env file (audit file.module_id event p.host))

  abbrev poll_known : File → Polled → Option File → Polled
  poll_known file p none = attempt new_candidate file p
  poll_known file p (some previous) =
      if is_changed previous file then attempt update_candidate file p else p

  -- One round of the loop.
  unfoldable pub poll_file : File → Polled → Polled
  unfolding find_file commit is_changed
  poll_file file p = poll_known file p (find_file p.files file.module_id)

  unfoldable pub poll_files : List File → Polled → Polled
  unfolding poll_file
  poll_files [] p = p
  poll_files (file ∷ files) p = poll_files files (poll_file file p)

  -- digit_hotload_poll; a scan that fails is the result -1.
  unfoldable pub poll : Scan → List File → Host → Option Polled
  unfolding poll_files
  poll unreadable files h = none
  poll (overfull current) files h = none
  poll (complete current) files h =
      some (poll_files current (record { changes = 0; files = files; host = h }))
