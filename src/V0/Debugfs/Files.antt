-- ===== src/V0/Debugfs/Files.antt =====
-- akida-dw-edma/dw-edma-v0-debugfs.c: the directories and the names of the files.
use Prim.Native.String.{String}
use mathlib.Core.List.{append_assoc}
use akida_dw_edma.Base.{
  ℕ, zero, suc, Bool, true, if◌then◌else◌, List, [], ◌∷◌, ◌++◌, map, ◌≡◌, ap, ◌∙◌, Bool-cases, inl,
  inr, refl, subst, ◌+◌,
}
use akida_dw_edma.Edma.{Dir, write, read, MapFormat}
use akida_dw_edma.Edma.Debugfs.{
  dir_name, with_names, Name, named, channel, value, reg, File, file, Fs, create, create_x32,
  files_of, regs_of, files_of-create3, kept, Appends, Appends-none, Appends-then,
  create_x32-Appends,
}
use akida_dw_edma.V0.Regs.{offset, pwr_en}
use akida_dw_edma.V0.Debugfs.Tables.{
  global_table, power_table, channel_table, ch_base, ch_regs-ch_base,
}
use akida_dw_edma.V0.Control.{is_compat}
use akida_dw_edma.V0.Debugfs.{Entry, register, regs_ch, unroll_regs, global_regs}

-- Of `dw_edma_debugfs_regs_ch`
abbrev pub ch_names : List String
ch_names =
    "ch_control1" ∷ "ch_control2" ∷ "transfer_size" ∷ "sar.lsb" ∷ "sar.msb" ∷ "dar.lsb" ∷ "dar.msb"
    ∷ "llp.lsb" ∷ "llp.msb" ∷ []

-- Of the two arrays `debugfs_regs` and of the two `debugfs_unroll_regs`
abbrev pub global_names : Dir → List String
global_names write =
    "engine_en" ∷ "doorbell" ∷ "ch_arb_weight.lsb" ∷ "ch_arb_weight.msb" ∷ "int_status" ∷ "int_mask"
    ∷ "int_clear" ∷ "err_status" ∷ "done_imwr.lsb" ∷ "done_imwr.msb" ∷ "abort_imwr.lsb"
    ∷ "abort_imwr.msb" ∷ "ch01_imwr_data" ∷ "ch23_imwr_data" ∷ "ch45_imwr_data" ∷ "ch67_imwr_data"
    ∷ "linked_list_err_en" ∷ []
global_names read =
    "engine_en" ∷ "doorbell" ∷ "ch_arb_weight.lsb" ∷ "ch_arb_weight.msb" ∷ "int_status" ∷ "int_mask"
    ∷ "int_clear" ∷ "err_status.lsb" ∷ "err_status.msb" ∷ "linked_list_err_en" ∷ "done_imwr.lsb"
    ∷ "done_imwr.msb" ∷ "abort_imwr.lsb" ∷ "abort_imwr.msb" ∷ "ch01_imwr_data" ∷ "ch23_imwr_data"
    ∷ "ch45_imwr_data" ∷ "ch67_imwr_data" ∷ []

abbrev pub unroll_names : List String
unroll_names =
    "engine_chgroup" ∷ "engine_hshake_cnt.lsb" ∷ "engine_hshake_cnt.msb" ∷ "ch0_pwr_en"
    ∷ "ch1_pwr_en" ∷ "ch2_pwr_en" ∷ "ch3_pwr_en" ∷ "ch4_pwr_en" ∷ "ch5_pwr_en" ∷ "ch6_pwr_en"
    ∷ "ch7_pwr_en" ∷ []

module _ (fails : ℕ → Bool) (mf : MapFormat) where
  -- `dw_edma_debugfs_regs_ch`
  unfoldable pub create_ch : List Name → Dir → ℕ → Fs Entry → Fs Entry
  create_ch dent dir ch fs = create_x32 fails dent (with_names ch_names (regs_ch mf dir ch)) fs

  -- The loop over `n` channels from `ch` on, each in a directory of its own.
  unfoldable pub create_channels : List Name → Dir → ℕ → ℕ → Fs Entry → Fs Entry
  unfolding create_ch
  create_channels dent dir zero ch fs = fs
  create_channels dent dir (suc n) ch fs =
      create_channels dent dir n (suc ch) (create_ch (dent ++ channel ch ∷ []) dir ch fs)

  -- `dw_edma_debugfs_regs_wr` and `dw_edma_debugfs_regs_rd`
  unfoldable pub create_dir : List Name → Dir → ℕ → Fs Entry → Fs Entry
  unfolding create_channels
  create_dir dent dir cnt fs =
      let regs_dent = dent ++ named (dir_name dir) ∷ [] in
      let fs₁ = create_x32 fails regs_dent (with_names (global_names dir) (global_regs dir)) fs in
      let fs₂ = create_x32 fails regs_dent (with_names unroll_names (unroll_regs dir)) fs₁ in
      create_channels regs_dent dir cnt 0 (if is_compat mf then fs₂ else fs₁)

  -- `dw_edma_debugfs_regs`; `dbg_dev_root` is the directory of the device.
  unfoldable pub create_regs : List Name → ℕ → ℕ → Fs Entry → Fs Entry
  unfolding create_dir
  create_regs dbg_dev_root wr_cnt rd_cnt fs =
      let dent = dbg_dev_root ++ named "registers" ∷ [] in
      let es = ("ctrl_data_arb_prior", register 0x0) ∷ ("ctrl", register 0x8) ∷ [] in
      create_dir dent read rd_cnt (create_dir dent write wr_cnt (create_x32 fails dent es fs))

  -- `dw_edma_v0_debugfs_on`; `initialized` is `debugfs_initialized()` and `mf_number` the number of
  -- the register map.
  unfoldable pub debugfs_on : Bool → List Name → ℕ → ℕ → ℕ → Fs Entry → Fs Entry
  unfolding create_regs
  debugfs_on initialized root mf_number wr_cnt rd_cnt fs =
      let fs₁ = create root "mf" (value mf_number) fs in
      let fs₂ = create root "wr_ch_cnt" (value wr_cnt) fs₁ in
      let fs₃ = create root "rd_ch_cnt" (value rd_cnt) fs₂ in
      if initialized then create_regs root wr_cnt rd_cnt fs₃ else fs

  -- The files of registers, each by its name and its offset from the register base.
  abbrev pub registers : List Name → List (String × ℕ) → List (File Entry)
  registers dent rs = map (λ (e : String × ℕ). file dent e.0 (reg (register e.1))) rs

  abbrev channel_files : List Name → Dir → ℕ → List (File Entry)
  channel_files dent dir ch =
      map
        (λ (e : String × ℕ).
          file (dent ++ channel ch ∷ []) e.0
            (reg (record { reg = ch_base mf dir ch + e.1; dir = dir; ch = ch })))
        channel_table

  -- The files of the channels, those of each in a group.
  abbrev channel_groups : List Name → Dir → ℕ → ℕ → List (List (File Entry))
  channel_groups dent dir zero ch = []
  channel_groups dent dir (suc n) ch =
      channel_files dent dir ch ∷ channel_groups dent dir n (suc ch)

  abbrev dir_groups : List Name → Dir → ℕ → List (List (File Entry))
  dir_groups dent dir cnt =
      registers dent (global_table dir)
      ∷ ((if is_compat mf then registers dent (power_table dir) ∷ [] else [])
          ++ channel_groups dent dir cnt 0)

  -- The groups of files: the two registers of the core, and for either direction those of the
  -- direction, the power switches where there are any, and those of each channel.
  abbrev pub groups : List Name → ℕ → ℕ → List (List (File Entry))
  groups root wr_cnt rd_cnt =
      let dent = root ++ named "registers" ∷ [] in
      registers dent (("ctrl_data_arb_prior", 0x0) ∷ ("ctrl", 0x8) ∷ [])
        ∷ dir_groups (dent ++ named "write" ∷ []) write wr_cnt
      ++ dir_groups (dent ++ named "read" ∷ []) read rd_cnt

  channel_files-create_ch :
      (dent : List Name) (dir : Dir) (ch : ℕ)
      → regs_of (dent ++ channel ch ∷ []) (with_names ch_names (regs_ch mf dir ch))
        ≡ channel_files dent dir ch
  unfolding regs_ch
  channel_files-create_ch dent dir ch =
      ap
        (λ b.
          map
            (λ (e : String × ℕ).
              file (dent ++ channel ch ∷ []) e.0
                (reg (record { reg = b + e.1; dir = dir; ch = ch })))
            channel_table)
        (ch_regs-ch_base mf dir ch)

  -- An array whose entries are these files.
  made-Appends :
      (dent : List Name) (es : List (String × Entry)) (g : List (File Entry))
      → regs_of dent es ≡ g
      → Appends fails (g ∷ []) (create_x32 fails dent es)
  made-Appends dent es g e =
      subst (λ x. Appends fails (x ∷ []) (create_x32 fails dent es)) e
        (create_x32-Appends fails dent es)

  create_channels-Appends :
      (dent : List Name) (dir : Dir) (n ch : ℕ)
      → Appends fails (channel_groups dent dir n ch) (create_channels dent dir n ch)
  unfolding create_channels
  create_channels-Appends dent dir zero ch = Appends-none fails
  create_channels-Appends dent dir (suc n) ch =
      let d = dent ++ channel ch ∷ [] in
      Appends-then fails (channel_files dent dir ch ∷ []) (channel_groups dent dir n (suc ch))
        (create_ch d dir ch) (create_channels dent dir n (suc ch))
        (made-Appends d (with_names ch_names (regs_ch mf dir ch)) (channel_files dent dir ch)
          (channel_files-create_ch dent dir ch))
        (create_channels-Appends dent dir n (suc ch))

  power_table-unroll_regs :
      (dent : List Name) (dir : Dir)
      → regs_of dent (with_names unroll_names (unroll_regs dir)) ≡ registers dent (power_table dir)
  unfolding unroll_regs pwr_en
  power_table-unroll_regs dent write = refl
  power_table-unroll_regs dent read = refl

  global_table-global_regs :
      (dent : List Name) (dir : Dir)
      → regs_of dent (with_names (global_names dir) (global_regs dir))
        ≡ registers dent (global_table dir)
  unfolding global_regs offset
  global_table-global_regs dent write = refl
  global_table-global_regs dent read = refl

  unroll_regs-Appends :
      (dent : List Name) (dir : Dir)
      → Appends fails (if is_compat mf then registers dent (power_table dir) ∷ [] else []) (λ fs.
        if is_compat mf
        then create_x32 fails dent (with_names unroll_names (unroll_regs dir)) fs
        else fs)
  unroll_regs-Appends dent dir = elim (Bool-cases (is_compat mf)) [
    | inl e ↦ rw e (
        made-Appends dent (with_names unroll_names (unroll_regs dir))
          (registers dent (power_table dir)) (power_table-unroll_regs dent dir))
    | inr e ↦ rw e (Appends-none fails)
  ]

  create_dir-Appends :
      (dent : List Name) (dir : Dir) (cnt : ℕ)
      → Appends fails
          (dir_groups (dent ++ named (dir_name dir) ∷ []) dir cnt)
          (create_dir dent dir cnt)
  unfolding create_dir
  create_dir-Appends dent dir cnt =
      let d = dent ++ named (dir_name dir) ∷ [] in
      let es = with_names (global_names dir) (global_regs dir) in
      let unroll : Fs Entry → Fs Entry = λ fs.
        if is_compat mf
        then create_x32 fails d (with_names unroll_names (unroll_regs dir)) fs
        else fs in
      let rest = create_channels d dir cnt 0 in
      let first = registers d (global_table dir) in
      let gs : List (List (File Entry)) =
        if is_compat mf then registers d (power_table dir) ∷ [] else [] in
      Appends-then fails (first ∷ []) (gs ++ channel_groups d dir cnt 0) (create_x32 fails d es)
        (λ fs. rest (unroll fs)) (made-Appends d es first (global_table-global_regs d dir))
        (Appends-then fails gs (channel_groups d dir cnt 0) unroll rest (unroll_regs-Appends d dir)
          (create_channels-Appends d dir cnt 0))

  create_regs-Appends :
      (root : List Name) (wr_cnt rd_cnt : ℕ)
      → Appends fails (groups root wr_cnt rd_cnt) (create_regs root wr_cnt rd_cnt)
  unfolding create_regs
  create_regs-Appends root wr_cnt rd_cnt =
      let dent = root ++ named "registers" ∷ [] in
      let es : List (String × Entry) =
        ("ctrl_data_arb_prior", register 0x0) ∷ ("ctrl", register 0x8) ∷ [] in
      let wr = dir_groups (dent ++ named "write" ∷ []) write wr_cnt in
      let rd = dir_groups (dent ++ named "read" ∷ []) read rd_cnt in
      Appends-then fails (regs_of dent es ∷ []) (wr ++ rd) (create_x32 fails dent es)
        (λ fs. create_dir dent read rd_cnt (create_dir dent write wr_cnt fs))
        (create_x32-Appends fails dent es)
        (Appends-then fails wr rd (create_dir dent write wr_cnt) (create_dir dent read rd_cnt)
          (create_dir-Appends dent write wr_cnt) (create_dir-Appends dent read rd_cnt))

  -- Where debugfs is initialized, `dw_edma_v0_debugfs_on` adds a file for each of three numbers of
  -- the core and one for each register of its register map, with these paths and offsets: the two
  -- of the core first, then those of the write and of the read side with their channels. Where the
  -- allocation of an array fails, just the registers of that array have no file.
  pub debugfs_on-files :
      (root : List Name) (mf_number wr_cnt rd_cnt : ℕ) (fs : Fs Entry)
      → files_of (debugfs_on true root mf_number wr_cnt rd_cnt fs)
        ≡ files_of fs
          ++ (file root "mf" (value mf_number)
              ∷ file root "wr_ch_cnt" (value wr_cnt)
              ∷ file root "rd_ch_cnt" (value rd_cnt)
              ∷ kept fails fs.calls (groups root wr_cnt rd_cnt))
  unfolding debugfs_on
  debugfs_on-files root mf_number wr_cnt rd_cnt fs =
      let fs₁ = create root "mf" (value mf_number) fs in
      let fs₂ = create root "wr_ch_cnt" (value wr_cnt) fs₁ in
      let fs₃ = create root "rd_ch_cnt" (value rd_cnt) fs₂ in
      (create_regs-Appends root wr_cnt rd_cnt fs₃).0
      ∙ ap (λ xs. xs ++ kept fails fs.calls (groups root wr_cnt rd_cnt))
          (files_of-create3 root "mf" "wr_ch_cnt" "rd_ch_cnt" (value mf_number) (value wr_cnt)
            (value rd_cnt) fs)
      ∙ append_assoc (files_of fs)
          (file root "mf" (value mf_number)
            ∷ file root "wr_ch_cnt" (value wr_cnt)
            ∷ file root "rd_ch_cnt" (value rd_cnt)
            ∷ [])
          _
