-- ===== src/Path.antt =====
-- Path names in filesys/filesys.c of prj4, with strtok_r of lib/string.c for the delimiter "/".
pub mod Laws
use os_326_omega.Prelude.{
  ℕ, suc, zero, ◌+◌, ◌==◌, if◌then◌else◌, Bool, false, List, [], ◌∷◌, Option, some, none, length,
}
use os_326_omega.Prelude.Panic.{◌>>=◌}
use os_326_omega.Directory.{
  Dir, Inodes, strcmp_eq, dir_open, dir_open_root, dir_reopen, dir_close, dir_lookup,
  dir_get_parent,
}

abbrev pub ascii_slash : ℕ
ascii_slash = 47

-- "." and ".."
abbrev pub dot : List ℕ
dot = 46 ∷ []

abbrev pub dot_dot : List ℕ
dot_dot = 46 ∷ 46 ∷ []

-- the first loop of strtok_r
unfoldable pub skip : List ℕ → List ℕ
skip [] = []
skip (c ∷ cs) = let rest = skip cs in if c == ascii_slash then rest else c ∷ cs

-- its second loop: the token, and the string behind it and one delimiter
unfoldable pub token : List ℕ → List ℕ
token [] = []
token (c ∷ cs) = let rest = token cs in if c == ascii_slash then [] else c ∷ rest

unfoldable pub after : List ℕ → List ℕ
after [] = []
after (c ∷ cs) = let rest = after cs in if c == ascii_slash then cs else rest

-- The token and what *save_ptr points to; `none` is a null pointer.
unfoldable pub strtok_r : List ℕ → Option (List ℕ × List ℕ)
unfolding skip token after
strtok_r s = elim (skip s) [ [] ↦ none | c ∷ cs ↦ some (token (c ∷ cs), after (c ∷ cs)) ]

-- The loop of get_filename, on fuel.
unfoldable pub filename_loop : ℕ → List ℕ → List ℕ → Option (List ℕ)
filename_loop zero s prev_token = none
filename_loop (suc n) s prev_token = elim (strtok_r s) [
  | none ↦ some prev_token
  | some t ↦ filename_loop n t.1 t.0
]

unfoldable pub get_filename : List ℕ → Option (List ℕ)
unfolding filename_loop
get_filename path = filename_loop (length path + 2) path []

abbrev pub starts_with_slash : List ℕ → Bool
starts_with_slash [] = false
starts_with_slash (c ∷ cs) = c == ascii_slash

module _ (I : Inodes) (rounds : ℕ) (memory : Bool) where
  open I use {State, inode_close, inode_is_dir}

  -- What a component of the path does: `some none` is the return of a null pointer, and otherwise there
  -- is the next directory.
  unfoldable pub walk_step : State → Dir → List ℕ → Option (Option (Option Dir) × State)
  walk_step s dir name =
      let into : ℕ → State → Option (Option Dir) × State = λ inode t.
        if inode_is_dir t inode
        then (let opened = dir_open I memory (dir_close I t (some dir)) (some inode) in
            (some opened.0, opened.1))
        else (some (some dir), inode_close t (some inode)) in
      let enter : Option ℕ × State → Option (Option Dir) × State =
        λ got. elim got.0 [ none ↦ (none, got.1) | some inode ↦ into inode got.1 ] in
      let named : Option (Option (Option Dir) × State) =
        dir_lookup I rounds s dir name >>= λ got. some (enter got) in
      if strcmp_eq name dot
      then some (some (some dir), s)
      else if strcmp_eq name dot_dot
      then some (enter (dir_get_parent I s dir))
      else named

  -- The loop of get_containing_dir, on fuel. A step from a null pointer is a fault.
  unfoldable pub walk : ℕ → State → Option Dir → List ℕ → List ℕ → Option (Option Dir × State)
  unfolding walk_step
  walk zero s dir name rest = none
  walk (suc n) s dir name rest =
      let go : List ℕ × List ℕ → Option (Option Dir) × State → Option (Option Dir × State) =
        λ next out. elim out.0 [
          | none ↦ some (none, out.1)
          | some d ↦ walk n out.1 d next.0 next.1
        ] in
      elim (strtok_r rest) [
        | none ↦ some (dir, s)
        | some next ↦ elim dir [ none ↦ none | some d ↦ walk_step s d name >>= go next ]
      ]

  unfoldable pub get_containing_dir : State → Option Dir → List ℕ → Option (Option Dir × State)
  unfolding walk
  get_containing_dir s cwd path =
      let start : Option Dir × State = elim cwd [
        | none ↦ dir_open_root I memory s
        | some d ↦
            if starts_with_slash path then dir_open_root I memory s else dir_reopen I memory s d
      ] in
      elim (strtok_r path) [
        | none ↦ some start
        | some t ↦ walk (length path + 2) start.1 start.0 t.0 t.1
      ]
