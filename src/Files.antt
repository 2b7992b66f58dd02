-- ===== src/Files.antt =====
-- The file system as the services see it: each path with the bytes of its file. Directories are not
-- kept: making one adds no file, and removing one removes the files below it.
use nimo_os_photos.Prelude.{
  ◌≡◌, Bool, ◌||◌, not, none, List, [], ◌∷◌, ◌++◌, Text, text, text_eq, text_eq_iff, text_Eq,
  has_prefix, lookup, insert, delete, keep, ◌&&◌, ◌||◌, ◌∙◌, arith, if◌then◌else◌, is_some,
}

abbrev pub Files : Type 0
Files = List (Text × Text)

-- A path is the given one, or lies below it.
unfoldable pub inside : Text → Text → Bool
inside dir path = text_eq path dir || has_prefix path (dir ++ text "/")

-- os.Stat of a file, without an error; a path without a file is os.IsNotExist.
abbrev pub exists : Text → Files → Bool
exists path files = is_some (lookup path files)

-- What os.Rename says when the source exists: the move, another device, or another error.
pub data RenameOutcome : Type 0 where
  moved : RenameOutcome
  cross_device : RenameOutcome
  refused : RenameOutcome

-- What the system calls of a move answer.
pub record DiskFaults : Type 0 where
  pub mkdir_fails : Text → Bool
  pub rename : Text → Text → RenameOutcome
  pub copy_fails : Text → Bool
  -- The bytes that a copy that failed has left.
  pub partial : Text
  pub unlink_fails : Text → Bool
  -- The files that an os.RemoveAll that fails leaves.
  pub stays : Text → Bool

-- os.RemoveAll
unfoldable pub remove_all : DiskFaults → Text → Files → Files
remove_all d dir files = keep (λ f. not (inside dir f.0) || d.stays f.0) files

pub lookup-keep :
    (q : Text → Bool) (path : Text) (files : Files)
    → lookup path (keep (λ f. q f.0) files) ≡ (if q path then lookup path files else none)
unfolding lookup
lookup-keep q path [] = ground arith
lookup-keep q path ((p, c) ∷ files) = ground (arith, text_eq_iff p path, lookup-keep q path files)

pub lookup-remove_all :
    (d : DiskFaults) (dir path : Text) (files : Files)
    → lookup path (remove_all d dir files)
      ≡ (if inside dir path && not (d.stays path) then none else lookup path files)
unfolding remove_all
lookup-remove_all d dir path files =
    lookup-keep (λ p. not (inside dir p) || d.stays p) path files ∙ ground arith

-- os.Rename, on a source that has these bytes.
abbrev pub move_file : Text → Text → Text → Files → Files
move_file src dst bytes files = insert dst bytes (delete src files)
