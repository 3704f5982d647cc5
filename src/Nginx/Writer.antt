-- ===== src/Nginx/Writer.antt =====
-- internal/nginx/writer.go: the replacement of a file. A disk is the files of the output directory
-- by their names; what the operating system answers to each call is an argument.
pub mod Atomic
use cf_local.Prelude.{
  ℕ, ◌+◌, ◌/◌, Bool, true, false, not, ◌&&◌, Option, none, some, List, [], ◌∷◌, ◌++◌, ◌==◌,
  if◌then◌else◌, take, Bytes, codes, equal, Dict, lookup, delete, insert,
}

abbrev pub Disk : Type 0
Disk = Dict Bytes

pub data WriteError : Type 0 where
  empty_name not_base : WriteError
  open_failed write_failed sync_failed close_failed rename_failed : WriteError
  open_dir_failed sync_dir_failed close_dir_failed : WriteError

-- Which calls succeed, and of a write that fails how many bytes it has written.
pub record Calls : Type 0 where
  pub open_ok : Bool
  pub write_ok : Bool
  pub written : ℕ
  pub sync_ok : Bool
  pub close_ok : Bool
  pub rename_ok : Bool
  pub remove_ok : Bool
  pub open_dir_ok : Bool
  pub sync_dir_ok : Bool
  pub close_dir_ok : Bool

-- filepath.Base: without the slashes at the end, what stands behind the last slash.
unfoldable pub trim_slashes : Bytes → Bytes
trim_slashes [] = []
trim_slashes (c ∷ s) =
    let rest = trim_slashes s in if equal rest [] && c == b'/' then [] else c ∷ rest

unfoldable pub last_element : Bytes → Bytes → Bytes
last_element seen [] = seen
last_element seen (c ∷ s) = elim (c == b'/') [
  | true ↦ last_element [] s
  | false ↦ last_element (seen ++ c ∷ []) s
]

unfoldable pub base : Bytes → Bytes
base s =
    let e = last_element [] (trim_slashes s) in
    if equal s [] then codes "." else if equal e [] then codes "/" else e

unfoldable pub tmp_name : Bytes → Bytes
tmp_name name = b'.' ∷ name ++ codes ".tmp"

-- What a call of WriteAtomic comes to: the disks behind its system calls in their order, from the
-- first, and its error.
pub record Trace : Type 0 where
  pub disks : List Disk
  pub failure : Option WriteError

unfoldable pub last_disk : Disk → List Disk → Disk
last_disk d [] = d
last_disk d (e ∷ es) = last_disk e es

-- The file system calls, from the state `d`: os.Rename replaces the file and takes the other away.
unfoldable pub rename_file : Bytes → Bytes → Disk → Disk
rename_file from to d = elim (lookup from d) [ none ↦ d | some c ↦ insert to c (delete from d) ]

-- The steps behind the rename change no file.
unfoldable pub sync_parent : Calls → Option WriteError
sync_parent calls =
    if not calls.open_dir_ok
    then some open_dir_failed
    else if not calls.sync_dir_ok
    then some sync_dir_failed
    else if not calls.close_dir_ok
    then some close_dir_failed
    else none

-- The cleanup, whose error is ignored.
unfoldable pub remove_file : Calls → Bytes → Disk → Disk
remove_file calls name d = if calls.remove_ok then delete name d else d

-- The file is opened and emptied, then written; where a call fails, the new file is removed.
unfoldable pub write_steps : Calls → Bytes → Bytes → Disk → Trace
write_steps calls name contents d =
    let tmp = tmp_name name in
    let opened = insert tmp [] d in
    let torn = insert tmp (take calls.written contents) d in
    let full = insert tmp contents d in
    if not calls.open_ok
    then record { disks = []; failure = some open_failed }
    else if not calls.write_ok
    then record {
      disks = opened ∷ torn ∷ remove_file calls tmp torn ∷ [];
      failure = some write_failed;
    }
    else if not calls.sync_ok
    then record {
      disks = opened ∷ full ∷ remove_file calls tmp full ∷ [];
      failure = some sync_failed;
    }
    else if not calls.close_ok
    then record {
      disks = opened ∷ full ∷ remove_file calls tmp full ∷ [];
      failure = some close_failed;
    }
    else if not calls.rename_ok
    then record {
      disks = opened ∷ full ∷ remove_file calls tmp full ∷ [];
      failure = some rename_failed;
    }
    else record {
      disks = opened ∷ full ∷ rename_file tmp name full ∷ [];
      failure = sync_parent calls;
    }

unfoldable pub write_atomic : Calls → Bytes → Bytes → Disk → Trace
write_atomic calls name contents d =
    if equal name []
    then record { disks = []; failure = some empty_name }
    else if not (equal (base name) name)
    then record { disks = []; failure = some not_base }
    else write_steps calls name contents d
