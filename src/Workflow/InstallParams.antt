-- ===== src/Workflow/InstallParams.antt =====
-- The Install-Params field of crates/scll-core/src/workflow/applet.rs, and the bounded copies that the
-- workflows put into their reports. `RoundTrip` is about how the field is read.
pub mod RoundTrip
use scll_rust.Prelude.{
  ℕ, List, [], ◌∷◌, length, is_empty, if◌then◌else◌, Option, none, some, Result, ok, err, stuck,
  ok_or, ◌>>=◌,
}
use scll_rust.Prelude.Bits.{u8_try_from}
use scll_rust.Prelude.Heapless.{Heapless}
use scll_rust.Command.{overflow}
use scll_rust.Error.{ScllError}

-- limits.rs, `INSTALL_PARAMS_MAX`
abbrev pub install_params_max : ℕ
install_params_max = 255

abbrev pub tag_c9_app_params : ℕ
tag_c9_app_params = 0xC9

abbrev pub tag_ef_sys_params : ℕ
tag_ef_sys_params = 0xEF

module _ ⦃hl : Heapless⦄ where
  -- `push_tlv`, at the capacity of `build_install_params`.
  unfoldable pub push_tlv : List ℕ → ℕ → List ℕ → Result ScllError (List ℕ)
  push_tlv out tag value = ok_or (u8_try_from (length value)) (ScllError.build overflow) >>= λ len.
      ok_or (hl.push install_params_max out tag) (ScllError.build overflow) >>= λ out1.
      ok_or (hl.push install_params_max out1 len) (ScllError.build overflow) >>= λ out2.
      ok_or (hl.extend install_params_max out2 value) (ScllError.build overflow)

  unfoldable pub build_install_params : List ℕ → List ℕ → Result ScllError (List ℕ)
  build_install_params app_params sys_params = push_tlv [] tag_c9_app_params app_params >>= λ out.
      if is_empty sys_params then ok out else push_tlv out tag_ef_sys_params sys_params

  unfoldable pub copy_bounded : ℕ → List ℕ → Result ScllError (List ℕ)
  copy_bounded size src = ok_or (hl.extend size [] src) (ScllError.build overflow)
