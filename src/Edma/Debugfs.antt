-- ===== src/Edma/Debugfs.antt =====
-- akida-dw-edma/dw-edma-v0-debugfs.c and dw-hdma-v0-debugfs.c: the files that either creates in
-- debugfs. A directory is its path, and the file system the list of its files.
use Prim.Native.String.{String}
use akida_dw_edma.Base.{
  ℕ, suc, Bool, if◌then◌else◌, List, [], ◌∷◌, ◌++◌, map, ◌≡◌, refl, sym, ap, ap₂, ◌∙◌, ◌+◌, arith,
  length, length-append, Bool-cases, inl, inr,
}
use mathlib.Core.List.{append_assoc, append-nil}
use akida_dw_edma.Edma.{Dir, write, read}

-- The last part of a path; `channel i` is the name that `snprintf` makes of CHANNEL_STR and `i`.
pub data Name : Type 0 where
  named : String → Name
  channel : ℕ → Name

-- What a file shows: a field of the core, or the register of an entry.
pub data Shown (E : Type 0) : Type 0 where
  value : ℕ → Shown E
  reg : E → Shown E

pub record File (E : Type 0) : Type 0 where
  pub path : List Name
  pub shown : Shown E

-- The files, oldest first, and the number of calls of `devm_kcalloc`.
pub record Fs (E : Type 0) : Type 0 where
  pub calls : ℕ
  pub files : List (File E)

-- WRITE_STR and READ_STR
abbrev pub dir_name : Dir → String
dir_name write = "write"
dir_name read = "read"

module _ {E : Type 0} where
  -- The names of the entries of an array, in its order.
  abbrev pub with_names : List String → List E → List (String × E)
  with_names [] es = []
  with_names (n ∷ ns) [] = []
  with_names (n ∷ ns) (e ∷ es) = (n, e) ∷ with_names ns es

  -- `debugfs_create_u32`, `debugfs_create_u16` and `debugfs_create_file_unsafe`
  abbrev pub create : List Name → String → Shown E → Fs E → Fs E
  create dent name x fs = record fs {
    files = fs.files ++ record { path = dent ++ named name ∷ []; shown = x } ∷ [];
  }

  -- The loop over the entries of an array.
  unfoldable pub create_from : List Name → List (String × E) → Fs E → Fs E
  create_from dent [] fs = fs
  create_from dent ((name, e) ∷ es) fs = create_from dent es (create dent name (reg e) fs)

  -- `dw_edma_debugfs_create_x32` and `dw_hdma_debugfs_create_x32`, where `fails` tells which calls
  -- of `devm_kcalloc` fail.
  unfoldable pub create_x32 : (ℕ → Bool) → List Name → List (String × E) → Fs E → Fs E
  unfolding create_from
  create_x32 fails dent es fs =
      let fs₁ = record fs { calls = suc fs.calls } in
      if fails fs.calls then fs₁ else create_from dent es fs₁

  abbrev pub files_of : Fs E → List (File E)
  files_of fs = fs.files

  -- A file in a directory.
  abbrev pub file : List Name → String → Shown E → File E
  file dent name x = record { path = dent ++ named name ∷ []; shown = x }

  abbrev pub regs_of : List Name → List (String × E) → List (File E)
  regs_of dent es = map (λ (e : String × E). file dent e.0 (reg e.1)) es

  pub files_of-create3 :
      (dent : List Name) (m n o : String) (x y z : Shown E) (fs : Fs E)
      → files_of (create dent o z (create dent n y (create dent m x fs)))
        ≡ files_of fs ++ (file dent m x ∷ file dent n y ∷ file dent o z ∷ [])
  files_of-create3 dent m n o x y z fs =
      ap (λ xs. xs ++ file dent o z ∷ [])
        (append_assoc (files_of fs) (file dent m x ∷ []) (file dent n y ∷ []))
      ∙ append_assoc (files_of fs) (file dent m x ∷ file dent n y ∷ []) (file dent o z ∷ [])

  create_from-files :
      (dent : List Name) (es : List (String × E)) (fs : Fs E)
      → (files_of (create_from dent es fs) ≡ files_of fs ++ regs_of dent es)
        × ((create_from dent es fs).calls ≡ fs.calls)
  unfolding create_from
  create_from-files dent [] fs = (sym (append-nil (files_of fs)), refl)
  create_from-files dent ((name, e) ∷ es) fs =
      let fs₁ = create dent name (reg e) fs in
      let (shown, calls) = create_from-files dent es fs₁ in
      (shown ∙ append_assoc (files_of fs) (file dent name (reg e) ∷ []) (regs_of dent es), calls)

  -- What there is of groups of files, if a group is left out where its call of `devm_kcalloc`
  -- fails. The calls are counted from `n` on.
  abbrev pub kept : (ℕ → Bool) → ℕ → List (List (File E)) → List (File E)
  kept fails n [] = []
  kept fails n (g ∷ gs) = (if fails n then [] else g) ++ kept fails (suc n) gs

  kept-append :
      (fails : ℕ → Bool) (n : ℕ) (gs hs : List (List (File E)))
      → kept fails n (gs ++ hs) ≡ kept fails n gs ++ kept fails (length gs + n) hs
  kept-append fails n [] hs = ap (λ k. kept fails k hs) (omega arith)
  kept-append fails n (g ∷ gs) hs =
      let same : length gs + suc n ≡ suc (length gs) + n = omega arith in
      ap (λ xs. (if fails n then [] else g) ++ xs)
        (kept-append fails (suc n) gs hs ∙ ap (λ k. kept fails (suc n) gs ++ kept fails k hs) same)
      ∙ sym (append_assoc (if fails n then [] else g) (kept fails (suc n) gs) _)

  -- The step adds the files of these groups, with one call for each.
  abbrev pub Appends : (ℕ → Bool) → List (List (File E)) → (Fs E → Fs E) → Type 0
  Appends fails gs f =
      (fs : Fs E)
      → (files_of (f fs) ≡ files_of fs ++ kept fails fs.calls gs)
        × ((f fs).calls ≡ length gs + fs.calls)

  pub Appends-none : (fails : ℕ → Bool) → Appends fails [] (λ fs. fs)
  Appends-none fails fs = (sym (append-nil (files_of fs)), omega arith)

  pub Appends-then :
      (fails : ℕ → Bool) (gs hs : List (List (File E))) (f g : Fs E → Fs E)
      → Appends fails gs f
      → Appends fails hs g
      → Appends fails (gs ++ hs) (λ fs. g (f fs))
  Appends-then fails gs hs f g p q fs =
      let (shown, calls) = p fs in
      let (shown', calls') = q (f fs) in
      (
        shown'
            ∙ ap₂ (λ xs n. xs ++ kept fails n hs) shown calls
            ∙ append_assoc (files_of fs) (kept fails fs.calls gs) _
            ∙ ap (λ xs. files_of fs ++ xs) (sym (kept-append fails fs.calls gs hs)),
        omega (arith, calls, calls', length-append gs hs),
      )

  pub create_x32-Appends :
      (fails : ℕ → Bool) (dent : List Name) (es : List (String × E))
      → Appends fails (regs_of dent es ∷ []) (create_x32 fails dent es)
  unfolding create_x32
  create_x32-Appends fails dent es fs =
      let fs₁ = record fs { calls = suc fs.calls } in
      let (shown, calls) = create_from-files dent es fs₁ in
      elim (Bool-cases (fails fs.calls)) [
        | inl e ↦ rw e (sym (append-nil (files_of fs)), omega arith)
        | inr e ↦ rw e (
          shown ∙ ap (λ xs. files_of fs ++ xs) (sym (append-nil (regs_of dent es))),
          omega (arith, calls),
        )
      ]
