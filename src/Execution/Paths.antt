-- ===== src/Execution/Paths.antt =====
-- `make_staged_path` and `make_intermediate_path` of
-- services/execution/enclave/src/task_file_manager.rs, with `Path::join` and `Path::file_name`.
use incubator_mesatee.Base.{
  Text, utf8, ◌==◌, Bool, true, false, List, [], ◌∷◌, ◌++◌, Option, none, some, ok, err, Action,
  pure, lift, ◌>>=◌, ◌>>◌, if◌then◌else◌, starts_with, eqb, ◌||◌, Result,
}
use incubator_mesatee.Base.Str.{split}
use incubator_mesatee.Execution.Platform.{Platform}
use incubator_mesatee.Types.File.{Url}
use incubator_mesatee.Types.Runtime.{Failure, error}

-- whether a separator is put after the path
abbrev needs_sep : Text → Bool
needs_sep [] = false
needs_sep (c ∷ []) = if eqb c b'/' then false else true
needs_sep (c ∷ d ∷ s) = needs_sep (d ∷ s)

-- `Path::join`
unfoldable pub join : Text → Text → Text
join base path =
    if starts_with path (utf8 "/")
    then path
    else if needs_sep base
    then base ++ (b'/' ∷ path)
    else base ++ path

-- the last component that is neither empty nor `.`
abbrev last_component : List Text → Option Text
last_component [] = none
last_component (c ∷ cs) = elim (last_component cs) [
  | some last ↦ some last
  | none ↦ if (c == [] || c == utf8 ".") then none else some c
]

-- `Path::file_name`
unfoldable pub file_name : Text → Option Text
file_name path = elim (last_component (split b'/' path)) [
  | none ↦ none
  | some last ↦ if last == utf8 ".." then none else some last
]

module _ (p : Platform) where
  unfoldable pub original_name : Url → Result Failure Text
  original_name url = elim (file_name (p.url_path url)) [
    | none ↦ err (error (utf8 "Cannot get filename from url"))
    | some name ↦ ok name
  ]

  unfoldable pub ensure_dir : Text → Action p.Machine Failure (Unit {0})
  ensure_dir dir machine =
      if p.exists dir machine then (ok tt, machine) else p.create_dir_all dir machine

  unfoldable pub make_staged_path : Text → Text → Url → Action p.Machine Failure Text
  make_staged_path base funiq_key url = do
    name ← lift (original_name url)
    let file_dir = join base (funiq_key ++ utf8 "-staged")
    ensure_dir file_dir
    pure (join file_dir name)

  unfoldable pub make_intermediate_path : Text → Text → Url → Action p.Machine Failure Text
  make_intermediate_path base funiq_key url = do
    name ← lift (original_name url)
    let file_dir = join base funiq_key
    ensure_dir file_dir
    pure (join file_dir name)
