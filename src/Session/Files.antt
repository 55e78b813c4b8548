-- ===== src/Session/Files.antt =====
-- engine/session_manager.py: the files of a directory, each with its name, its time of modification
-- and its content, none where the text cannot be parsed. What is written consists of texts, numbers,
-- lists and JSON values, for which `default=str` is never asked and `json.loads` gives back what
-- `json.dumps` got; so the content is the value that was written.
use comfyui_engine.Prelude.{
  ℕ, Option, none, some, List, [], ◌∷◌, String, leb, str_eq, if◌then◌else◌,
}

pub record File (A : Type 0) : Type 0 where
  pub name : String
  pub mtime : ℕ
  pub content : Option A

module _ {A : Type 0} where
  unfoldable pub remove_file : String → List (File A) → List (File A)
  remove_file name [] = []
  remove_file name (f ∷ fs) =
      let rest = remove_file name fs in if str_eq f.name name then rest else f ∷ rest

  -- `path.write_text`, over a file that is there.
  unfoldable pub write_file : String → ℕ → A → List (File A) → List (File A)
  unfolding remove_file
  write_file name now a fs =
      record { name = name; mtime = now; content = some a } ∷ remove_file name fs

  unfoldable pub read_file : String → List (File A) → Option A
  read_file name [] = none
  read_file name (f ∷ fs) = if str_eq f.name name then f.content else read_file name fs

  -- `sort` with `reverse=True`, which keeps the order of equal keys.
  unfoldable pub insert_newest : (A → ℕ) → A → List A → List A
  insert_newest key x [] = x ∷ []
  insert_newest key x (y ∷ ys) =
      let rest = insert_newest key x ys in if leb (key y) (key x) then x ∷ y ∷ ys else y ∷ rest

  unfoldable pub newest_first : (A → ℕ) → List A → List A
  unfolding insert_newest
  newest_first key [] = []
  newest_first key (x ∷ xs) = insert_newest key x (newest_first key xs)

  -- The contents of the files that can be parsed.
  unfoldable pub parsed : List (File A) → List A
  parsed [] = []
  parsed (f ∷ fs) = elim f.content [ none ↦ parsed fs | some a ↦ a ∷ parsed fs ]

  -- The content of the first of the sorted files.
  unfoldable pub newest : List (File A) → Option A
  newest [] = none
  newest (f ∷ fs) = f.content
