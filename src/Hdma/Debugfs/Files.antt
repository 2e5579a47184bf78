-- ===== src/Hdma/Debugfs/Files.antt =====
-- akida-dw-edma/dw-hdma-v0-debugfs.c: the directories and the names of the files.
use Prim.Native.String.{String}
use mathlib.Core.List.{append_assoc}
use akida_dw_edma.Base.{ℕ, zero, suc, Bool, true, if◌then◌else◌, List, [], ◌∷◌, ◌++◌, ◌≡◌, ap, ◌∙◌}
use akida_dw_edma.Edma.{Dir, write, read}
use akida_dw_edma.Edma.Debugfs.{
  dir_name, with_names, Name, named, channel, value, File, file, regs_of, Fs, create, create_x32,
  files_of, files_of-create3, kept, Appends, Appends-none, Appends-then, create_x32-Appends,
}
use akida_dw_edma.Hdma.Debugfs.{regs_ch}

-- The names of `dw_hdma_debugfs_regs_ch`
abbrev pub ch_names : List String
ch_names =
    "ch_en" ∷ "doorbell" ∷ "prefetch" ∷ "handshake" ∷ "llp.lsb" ∷ "llp.msb" ∷ "cycle_sync"
    ∷ "transfer_size" ∷ "sar.lsb" ∷ "sar.msb" ∷ "dar.lsb" ∷ "dar.msb" ∷ "watermark_en" ∷ "control1"
    ∷ "func_num" ∷ "qos" ∷ "ch_stat" ∷ "int_stat" ∷ "int_setup" ∷ "int_clear" ∷ "msi_stop.lsb"
    ∷ "msi_stop.msb" ∷ "msi_watermark.lsb" ∷ "msi_watermark.msb" ∷ "msi_abort.lsb" ∷ "msi_abort.msb"
    ∷ "msi_msgdata" ∷ []

module _ (fails : ℕ → Bool) where
  -- `dw_hdma_debugfs_regs_ch`
  unfoldable pub create_ch : List Name → Dir → ℕ → Fs ℕ → Fs ℕ
  create_ch dent dir ch fs = create_x32 fails dent (with_names ch_names (regs_ch dir ch)) fs

  -- The loop over `n` channels from `ch` on, each in a directory of its own.
  unfoldable pub create_channels : List Name → Dir → ℕ → ℕ → Fs ℕ → Fs ℕ
  unfolding create_ch
  create_channels dent dir zero ch fs = fs
  create_channels dent dir (suc n) ch fs =
      create_channels dent dir n (suc ch) (create_ch (dent ++ channel ch ∷ []) dir ch fs)

  -- `dw_hdma_debugfs_regs_wr` and `dw_hdma_debugfs_regs_rd`
  abbrev pub create_dir : List Name → Dir → ℕ → Fs ℕ → Fs ℕ
  create_dir dent dir cnt fs = create_channels (dent ++ named (dir_name dir) ∷ []) dir cnt 0 fs

  -- `dw_hdma_debugfs_regs`; `dbg_dev_root` is the directory of the device.
  unfoldable pub create_regs : List Name → ℕ → ℕ → Fs ℕ → Fs ℕ
  create_regs dbg_dev_root wr_cnt rd_cnt fs =
      let dent = dbg_dev_root ++ named "registers" ∷ [] in
      create_dir dent read rd_cnt (create_dir dent write wr_cnt fs)

  -- `dw_hdma_v0_debugfs_on`; `initialized` is `debugfs_initialized()` and `mf_number` the number of
  -- the register map.
  unfoldable pub debugfs_on : Bool → List Name → ℕ → ℕ → ℕ → Fs ℕ → Fs ℕ
  unfolding create_regs
  debugfs_on initialized root mf_number wr_cnt rd_cnt fs =
      let fs₁ = create root "mf" (value mf_number) fs in
      let fs₂ = create root "wr_ch_cnt" (value wr_cnt) fs₁ in
      let fs₃ = create root "rd_ch_cnt" (value rd_cnt) fs₂ in
      if initialized then create_regs root wr_cnt rd_cnt fs₃ else fs

  -- The registers of the channels, those of each in a group.
  abbrev pub channel_groups : List Name → Dir → ℕ → ℕ → List (List (File ℕ))
  channel_groups dent dir zero ch = []
  channel_groups dent dir (suc n) ch =
      regs_of (dent ++ channel ch ∷ []) (with_names ch_names (regs_ch dir ch))
      ∷ channel_groups dent dir n (suc ch)

  create_channels-Appends :
      (dent : List Name) (dir : Dir) (n ch : ℕ)
      → Appends fails (channel_groups dent dir n ch) (create_channels dent dir n ch)
  unfolding create_channels regs_ch
  create_channels-Appends dent dir zero ch = Appends-none fails
  create_channels-Appends dent dir (suc n) ch =
      let d = dent ++ channel ch ∷ [] in
      Appends-then fails
        (regs_of (dent ++ channel ch ∷ []) (with_names ch_names (regs_ch dir ch)) ∷ [])
        (channel_groups dent dir n (suc ch)) (create_ch d dir ch)
        (create_channels dent dir n (suc ch))
        (create_x32-Appends fails d (with_names ch_names (regs_ch dir ch)))
        (create_channels-Appends dent dir n (suc ch))

  -- Where debugfs is initialized, `dw_hdma_v0_debugfs_on` adds a file for each of three numbers of
  -- the core and for each register of a channel, under its path, those of the write channels first. Where the
  -- allocation for a channel fails, just the registers of that channel have no file.
  pub debugfs_on-files :
      (root : List Name) (mf_number wr_cnt rd_cnt : ℕ) (fs : Fs ℕ)
      → files_of (debugfs_on true root mf_number wr_cnt rd_cnt fs)
        ≡ files_of fs
          ++ (file root "mf" (value mf_number)
              ∷ file root "wr_ch_cnt" (value wr_cnt)
              ∷ file root "rd_ch_cnt" (value rd_cnt)
              ∷ kept fails fs.calls (
                  channel_groups
                    ((root ++ named "registers" ∷ []) ++ named "write" ∷ [])
                    write
                    wr_cnt
                    0
                  ++ channel_groups
                      ((root ++ named "registers" ∷ []) ++ named "read" ∷ [])
                      read
                      rd_cnt
                      0))
  unfolding debugfs_on create_regs
  debugfs_on-files root mf_number wr_cnt rd_cnt fs =
      let fs₁ = create root "mf" (value mf_number) fs in
      let fs₂ = create root "wr_ch_cnt" (value wr_cnt) fs₁ in
      let fs₃ = create root "rd_ch_cnt" (value rd_cnt) fs₂ in
      let dent = root ++ named "registers" ∷ [] in
      let wr = channel_groups (dent ++ named (dir_name write) ∷ []) write wr_cnt 0 in
      let rd = channel_groups (dent ++ named (dir_name read) ∷ []) read rd_cnt 0 in
      (Appends-then fails wr rd (create_dir dent write wr_cnt) (create_dir dent read rd_cnt)
        (create_channels-Appends (dent ++ named (dir_name write) ∷ []) write wr_cnt 0)
        (create_channels-Appends (dent ++ named (dir_name read) ∷ []) read rd_cnt 0) fs₃).0
      ∙ ap (λ xs. xs ++ kept fails fs.calls (wr ++ rd))
          (files_of-create3 root "mf" "wr_ch_cnt" "rd_ch_cnt" (value mf_number) (value wr_cnt)
            (value rd_cnt) fs)
      ∙ append_assoc (files_of fs)
          (file root "mf" (value mf_number)
            ∷ file root "wr_ch_cnt" (value wr_cnt)
            ∷ file root "rd_ch_cnt" (value rd_cnt)
            ∷ [])
          _
