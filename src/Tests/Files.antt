-- ===== src/Tests/Files.antt =====
-- The files of an eDMA core in debugfs.
use akida_dw_edma.Base.{ℕ, Bool, true, ◌==◌, [], ◌∷◌, ◌++◌, ◌≡◌}
use akida_dw_edma.Edma.{hdma_compat}
use akida_dw_edma.Edma.Debugfs.{named, value, file, Fs, files_of, kept}
use akida_dw_edma.V0.Debugfs.{Entry}
use akida_dw_edma.V0.Debugfs.Files.{debugfs_on, groups, debugfs_on-files}

-- The third allocation fails: there are no files for the power switches of the write channels.
abbrev third : ℕ → Bool
third n = n == 2

abbrev empty : Fs Entry
empty = record { calls = 0; files = [] }

debugfs_on-files_example :
    files_of (debugfs_on third hdma_compat true (named "0000:01:00.0" ∷ []) 4 2 2 empty)
    ≡ []
      ++ (file (named "0000:01:00.0" ∷ []) "mf" (value 4)
          ∷ file (named "0000:01:00.0" ∷ []) "wr_ch_cnt" (value 2)
          ∷ file (named "0000:01:00.0" ∷ []) "rd_ch_cnt" (value 2)
          ∷ kept third 0 (groups third hdma_compat (named "0000:01:00.0" ∷ []) 2 2))
debugfs_on-files_example =
    debugfs_on-files third hdma_compat (named "0000:01:00.0" ∷ []) 4 2 2 empty
