-- ===== src/Akida/Iatu.antt =====
-- akida-pcie-core.c: the address translation unit of the two devices, and the base of the
-- registers.
use akida_dw_edma.Base.{
  ℕ, ◌+◌, ◌-◌, ◌/◌, ◌%◌, ◌^◌, not, ◌==◌, u32, if◌then◌else◌, List, [], ◌∷◌, none, some, ◌≡◌, refl,
  ◌∙◌, if-elim,
}
use akida_dw_edma.Mmio.{Bus}
use akida_dw_edma.Edma.{Errno, success, is_success}
use akida_dw_edma.Akida.File.{ram_addr}
use akida_dw_edma.Akida.HostDdr.{HostDdr}

-- `struct akida_iatu_conf`
pub record IatuConf : Type 0 where
  pub addr : ℕ
  pub val : ℕ

abbrev conf : ℕ → ℕ → IatuConf
conf a v = record { addr = a; val = v }

-- `akida_1000_iatu_conf_table`, with its end mark
unfoldable pub iatu_conf_table_1000 : List IatuConf
iatu_conf_table_1000 =
    conf 0x900 0x80000000
    ∷ conf 0x904 0
    ∷ conf 0x918 0xfcc00000
    ∷ conf 0x908 0xc0080000
    ∷ conf 0x900 0x80000001
    ∷ conf 0x904 0
    ∷ conf 0x918 0xf8c00000
    ∷ conf 0x908 0xc0080200
    ∷ conf 0x900 0x80000002
    ∷ conf 0x904 0
    ∷ conf 0x918 ram_addr
    ∷ conf 0x908 0xc0080400
    ∷ conf 0 0
    ∷ []

-- `akida_1500_iatu_conf_table`, with its end mark
unfoldable pub iatu_conf_table_1500 : List IatuConf
iatu_conf_table_1500 =
    conf 0x700 0
    ∷ conf 0x704 0xc0080200
    ∷ conf 0x714 0xfcc00000
    ∷ conf 0x900 0
    ∷ conf 0x904 0xc0080400
    ∷ conf 0x914 0x20000000
    ∷ conf 0 0
    ∷ []

-- AKIDA_1500_HOST_DDR_BASE
abbrev pub host_ddr_base : ℕ
host_ddr_base = 0xc0000000

module _ {S : Type 0} (write_config : ℕ → ℕ → S → Errno × S) where
  -- The loop over a table until its end mark; `write_config` is `pci_write_config_dword`.
  unfoldable pub config_from : List IatuConf → S → Errno × S
  config_from [] s = (success, s)
  config_from (c ∷ cs) s =
      let (err, s') = write_config c.addr c.val s in
      let later = config_from cs s' in
      if c.addr == 0 then (success, s) else (if is_success err then later else (err, s'))

  -- `akida_1000_setup_iatu`
  unfoldable pub setup_iatu_1000 : S → Errno × S
  unfolding config_from iatu_conf_table_1000
  setup_iatu_1000 s = config_from iatu_conf_table_1000 s

  config_from-keeps :
      {A : Type 0} (f : S → A)
      → ((a x : ℕ) (s : S) → f (write_config a x s).1 ≡ f s)
      → (cs : List IatuConf) (s : S) → f (config_from cs s).1 ≡ f s
  unfolding config_from
  config_from-keeps f keeps [] s = refl
  config_from-keeps f keeps (c ∷ cs) s =
      let Same : Errno × S → Type 0 = λ r. f r.1 ≡ f s in
      let (err, s') = write_config c.addr c.val s in
      if-elim Same (c.addr == 0) (λ _. refl)
        (λ _.
          if-elim Same (is_success err)
            (λ _. config_from-keeps f keeps cs s' ∙ keeps c.addr c.val s)
            (λ _. keeps c.addr c.val s))

  -- What no write of the configuration changes is kept.
  pub setup_iatu_1000-keeps :
      {A : Type 0} (f : S → A)
      → ((a x : ℕ) (s : S) → f (write_config a x s).1 ≡ f s)
      → (s : S) → f (setup_iatu_1000 s).1 ≡ f s
  unfolding setup_iatu_1000
  setup_iatu_1000-keeps f keeps s = config_from-keeps f keeps iatu_conf_table_1000 s

module _ {H : Type 0} (bus : Bus H) (mmio_bar0 : ℕ) where
  open bus use {writel}

  -- The loop over a table, by stores to the registers at BAR 0.
  unfoldable pub store_from : List IatuConf → H → H
  store_from [] h = h
  store_from (c ∷ cs) h =
      let later = store_from cs (writel (mmio_bar0 + c.addr) c.val h) in
      if c.addr == 0 then h else later

  -- The region from which the device reaches the host memory at `dma_addr`: it is disabled, set,
  -- and enabled. `host_ddr_base + size - 1` is one of 64 bits that the store cuts to 32.
  unfoldable pub host_window : ℕ → ℕ → H → H
  host_window dma_addr size h =
      let h₁ = writel (mmio_bar0 + 0x400) 0 (writel (mmio_bar0 + 0x404) 0 h) in
      let h₂ = writel (mmio_bar0 + 0x40c) 0 (writel (mmio_bar0 + 0x408) host_ddr_base h₁) in
      let h₃ = writel (mmio_bar0 + 0x410) (u32 (host_ddr_base + size - 1)) h₂ in
      let h₄ = writel (mmio_bar0 + 0x414) (dma_addr % 2 ^ 32) h₃ in
      let h₅ = writel (mmio_bar0 + 0x418) (dma_addr / 2 ^ 32 % 2 ^ 32) h₄ in
      writel (mmio_bar0 + 0x404) 0x80000000 h₅

  -- `akida_1500_setup_iatu`, after `pcim_iomap_regions` has answered.
  unfoldable pub setup_iatu_1500 : Errno → HostDdr → H → Errno × H
  unfolding store_from iatu_conf_table_1500 host_window
  setup_iatu_1500 mapped ddr h =
      let h₁ = store_from iatu_conf_table_1500 h in
      let dma_addr : ℕ = elim ddr.area [ none ↦ 0 | some a ↦ a.1 ] in
      let h₂ = host_window dma_addr ddr.size h₁ in
      if not (is_success mapped)
      then (mapped, h)
      else (if ddr.size == 0 then (success, h₁) else (success, h₂))

-- `akida_1000_setup_dma_reg_base` and `akida_1500_setup_dma_reg_base`
abbrev pub reg_base_1000 : ℕ → ℕ
reg_base_1000 bar2 = bar2 + 0x970

abbrev pub reg_base_1500 : ℕ → ℕ
reg_base_1500 bar0 = bar0
