-- ===== src/Capture/Files.antt =====
-- The files that src/embedded/embedded_capture.cpp looks at, and its `partialPath` and
-- `atomicPublish`. A path is its text; what the file system and the random device answer is a
-- parameter.
use tracy_query.Prelude.{
  ℕ, zero, suc, Bool, true, false, Option, none, some, ◌++◌, if◌then◌else◌, Text, codes, text_eq,
}
use tracy_query.Prelude.Decimal.{to_string}

-- The contents of the files that there are.
abbrev pub Files : Type 0
Files = Text → Option Text

abbrev pub put_file : Text → Text → Files → Files
put_file path content files = λ p. if text_eq p path then some content else files p

abbrev pub remove_file : Text → Files → Files
remove_file path files = λ p. if text_eq p path then none else files p

abbrev pub exists : Text → Files → Bool
exists path files = elim (files path) [ none ↦ false | some content ↦ true ]

-- An exception: one that has a message, or one that is no `std::exception`.
pub data Thrown : Type 0 where
  std_exception : Text → Thrown
  other_exception : Thrown

pub data Outcome {ℓ} (A : Type ℓ) : Type ℓ where
  returns : A → Outcome A
  throws : Thrown → Outcome A

abbrev pub candidate : Text → ℕ → Text
candidate output random = output ++ (codes "." ++ (to_string random ++ codes ".partial"))

-- The loop, with the attempts that are left and what the random device draws at each of these.
unfoldable pub partial_attempts : ℕ → Text → (ℕ → ℕ) → Files → Option Text
partial_attempts zero output random files = none
partial_attempts (suc attempts) output random files =
    let path = candidate output (random attempts) in
    let rest = partial_attempts attempts output random files in
    if exists path files then rest else some path

unfoldable pub partial_path : Text → (ℕ → ℕ) → Files → Outcome Text
unfolding partial_attempts
partial_path output random files = elim (partial_attempts 32 output random files) [
  | some path ↦ returns path
  | none ↦ throws (std_exception (codes "cannot allocate a unique partial capture path"))
]

-- What the file system answers to the link and to the removal: nothing, or an exception.
pub record Publication : Type 0 where
  pub link_fails : Option Thrown
  pub existing : Thrown
  pub missing : Thrown
  pub remove_fails : Option Thrown

-- A hard link is made only where no file is. The files are as the call leaves them.
unfoldable pub atomic_publish : Text → Text → Publication → Files → Option Thrown × Files
atomic_publish partial output answers files = elim (files output) [
  | some old ↦ (some answers.existing, files)
  | none ↦ elim (files partial) [
    | none ↦ (some answers.missing, files)
    | some content ↦ elim answers.link_fails [
      | some e ↦ (some e, files)
      | none ↦ elim answers.remove_fails [
        | some e ↦ (some e, put_file output content files)
        | none ↦ (none, remove_file partial (put_file output content files))
      ]
    ]
  ]
]
