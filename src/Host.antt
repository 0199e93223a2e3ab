-- ===== src/Host.antt =====
-- What the services take from the host: paths, the file system and the free space of a volume.
-- This is Python's `pathlib`, `shutil` and `os`, none of it the program's; a value of `Host` is a
-- parameter of every definition that uses it. A resolved path is the list of its parts.
use vmbackupd.Prelude.{ℕ, String, Bool, Option, List, Result}

pub record Host : Type 1 where
  pub World : Type 0
  -- `Path(text).resolve()`
  pub resolve : World → String → List String
  pub exists : World → List String → Bool
  pub is_dir : World → List String → Bool
  -- The world afterwards, and the text of the exception if one was raised.
  pub rmtree : World → List String → World × Option String
  pub unlink : World → List String → World × Option String
  -- `f_bavail * f_frsize` of `os.statvfs`, which may raise.
  pub free_space : World → String → Result ℕ
