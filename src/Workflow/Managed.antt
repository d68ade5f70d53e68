-- ===== src/Workflow/Managed.antt =====
-- The operations of crates/scll-core/src/workflow/{applet, ssd}.rs that change the contents of a card:
-- one command through the open channel, or two, with the meaning of the status words. `Answered`,
-- with `Asked` and `Removal`, is about them.
pub mod Answered
pub mod Asked
pub mod Removal
use scll_rust.Prelude.{
  ℕ, List, [], ◌∷◌, length, is_empty, Bool, true, false, not, ◌&&◌, ◌||◌, ◌==◌, bit_and, bit_or,
  if◌then◌else◌, Option, none, some, Result, ok, err, stuck, ok_or, map_err, reject_if,
}
use scll_rust.Prelude.Actions.{Action, ◌>>=◌, ◌>>◌, lift}
use scll_rust.Prelude.Heapless.{Heapless}
use scll_rust.Aid.{Aid, new}
use scll_rust.Command.{BuildError}
use scll_rust.Command.Builders.{delete_object}
use scll_rust.Command.Install.{PrivLen, Privileges, install_for_install_make_selectable}
use scll_rust.Error.{ScllError, from_general_sw}
use scll_rust.Response.{unwrap_or}
use scll_rust.Scp.Backend.{Scp03Backend, Scp02Backend}
use scll_rust.Scp.Sessions.{ScpSession}
use scll_rust.Workflow.InstallParams.{install_params_max, build_install_params, copy_bounded}
use scll_rust.Session.{
  Transport, sw_ok, sw_conditions, sw_ref_not_found, sw_wrong_data, transmit_in_session,
}

-- limits.rs, `MAX_REMOVED_OBJECTS`
abbrev pub max_removed_objects : ℕ
max_removed_objects = 32

abbrev pub applet_refused_mask : ℕ
applet_refused_mask = bit_or (bit_or (bit_or 0x80 0x40) 0x20) 0x01

abbrev pub ssd_refused_mask : ℕ
ssd_refused_mask = bit_or (bit_or 0x40 0x20) 0x01

-- A `match sw` with `SW_OK` first, then arms that return an error of their own, and the general
-- meaning last.
unfoldable pub match_sw : List (ℕ × ScllError) → ℕ → Result ScllError (Unit {0})
match_sw arms sw = if sw == sw_ok then ok tt else err (meaning arms)
  where
    meaning : List (ℕ × ScllError) → ScllError
    meaning [] = from_general_sw sw
    meaning (arm ∷ rest) = if sw == arm.0 then arm.1 else meaning rest

pub data DeleteCascade : Type 0 where
  never only_if_empty if_last_instance cascade always : DeleteCascade

pub data DeleteTargetKind : Type 0 where
  ssd applet_instance executable_load_file : DeleteTargetKind

pub record InstallAppletArgs : Type 0 where
  pub parent_sd_aid : List ℕ
  pub package_aid : List ℕ
  pub module_aid : List ℕ
  pub instance_aid : List ℕ
  pub privileges : Privileges
  pub system_install_params : List ℕ
  pub applet_install_params : List ℕ

-- A report is its effective parameters; its list of warnings is always empty, and left out.
pub record InstallAppletParams : Type 0 where
  pub instance_aid : Aid
  pub package_aid_used : Aid
  pub module_aid_used : Aid
  pub privileges_used : Privileges
  pub system_install_params : List ℕ
  pub applet_install_params : List ℕ
  pub parent_sd_aid : Aid

pub record DeleteAppletArgs : Type 0 where
  pub instance_aid : List ℕ
  pub elf_aid : Option (List ℕ)
  pub cascade_elf : DeleteCascade

pub record DeleteObjectParams : Type 0 where
  pub target_aid : Aid
  pub target_kind : DeleteTargetKind
  pub cascade_requested : DeleteCascade
  pub cascade_used : Bool
  pub instances_removed : List Aid
  pub elfs_removed : List Aid

pub record CreateSsdArgs : Type 0 where
  pub parent_sd_aid : List ℕ
  pub ssd_aid : List ℕ
  pub elf_aid : List ℕ
  pub module_aid : List ℕ
  pub privileges : Privileges
  pub install_params : List ℕ

pub record CreateSsdParams : Type 0 where
  pub ssd_aid_effective : Aid
  pub aid_was_generated : Bool
  pub parent_sd_aid : Aid
  pub privileges_used : Privileges
  pub elf_aid_used : Aid
  pub module_aid_used : Aid
  pub install_params_used : List ℕ

abbrev pub installed_params :
    InstallAppletArgs → Aid → Aid → Aid → List ℕ → List ℕ → Aid → InstallAppletParams
installed_params args instance_aid package_aid module_aid system applet parent_sd_aid = record {
  instance_aid = instance_aid;
  package_aid_used = package_aid;
  module_aid_used = module_aid;
  privileges_used = args.privileges;
  system_install_params = system;
  applet_install_params = applet;
  parent_sd_aid = parent_sd_aid;
}

-- `matches!(cascade, Always | IfLastInstance)` and `matches!(cascade, Cascade | Always)`
abbrev pub wants_elf : DeleteCascade → Bool
wants_elf always = true
wants_elf if_last_instance = true
wants_elf _ = false

abbrev pub cascades : DeleteCascade → Bool
cascades cascade = true
cascades always = true
cascades _ = false

-- The arms of `delete_ssd`, with its guard.
abbrev pub ssd_arms : Bool → List (ℕ × ScllError)
ssd_arms true = (sw_ref_not_found, ScllError.target_no_longer_exists) ∷ []
ssd_arms false =
    (sw_ref_not_found, ScllError.target_no_longer_exists)
    ∷ (sw_conditions, ScllError.ssd_has_applets)
    ∷ []

module _ ⦃hl : Heapless⦄ where
  -- `let _ = v.push(a)`
  abbrev pub pushed : List Aid → Aid → List Aid
  pushed v a = unwrap_or (hl.push max_removed_objects v a) v

  abbrev pub deleted_params : DeleteAppletArgs → Aid → Aid → List Aid → Bool → DeleteObjectParams
  deleted_params args target_aid removed elfs_removed cascade_used = record {
    target_aid = target_aid;
    target_kind = applet_instance;
    cascade_requested = args.cascade_elf;
    cascade_used = cascade_used;
    instances_removed = pushed [] removed;
    elfs_removed = elfs_removed;
  }

  module _ {W : Type 0} (t : Transport W) (b03 : Scp03Backend W) (b02 : Scp02Backend W) where
    -- A command through the channel whose status word is looked up in the arms.
    unfoldable pub ask :
        Result BuildError (List ℕ)
        → List (ℕ × ScllError)
        → Action (ScpSession × W) ScllError (Unit {0})
    ask command arms = do
      capdu ← lift (map_err ScllError.build command)
      (d, sw) ← transmit_in_session t b03 b02 capdu
      lift (match_sw arms sw)

    unfoldable pub install_applet :
        InstallAppletArgs → PrivLen → Action (ScpSession × W) ScllError InstallAppletParams
    install_applet args priv_len = do
      lift (
          reject_if (not (bit_and args.privileges.byte_1 applet_refused_mask == 0))
            ScllError.unsupported_privilege)
      params ← lift (build_install_params args.applet_install_params args.system_install_params)
      ask
          (install_for_install_make_selectable args.package_aid args.module_aid args.instance_aid
            args.privileges priv_len params)
          ((sw_ref_not_found, ScllError.package_not_found)
            ∷ (sw_wrong_data, ScllError.aid_already_exists)
            ∷ [])
      instance_aid ← lift (new args.instance_aid)
      package_aid ← lift (new args.package_aid)
      module_aid ← lift (new args.module_aid)
      system ← lift (copy_bounded install_params_max args.system_install_params)
      applet ← lift (copy_bounded install_params_max args.applet_install_params)
      parent_sd_aid ← lift (new args.parent_sd_aid)
      lift (
          ok
            (installed_params args instance_aid package_aid module_aid system applet parent_sd_aid))

    -- The optional removal of the load file: what was removed, and whether it was asked for.
    unfoldable pub cascade_to_elf :
        Option (List ℕ) → Bool → Action (ScpSession × W) ScllError (List Aid × Bool)
    cascade_to_elf (some elf) true = do
      ask (delete_object elf false) (
          (sw_conditions, ScllError.elf_has_other_instances)
          ∷ (sw_ref_not_found, ScllError.target_no_longer_exists)
          ∷ [])
      aid ← lift (new elf)
      lift (ok (pushed [] aid, true))
    cascade_to_elf _ _ = lift (ok ([], false))

    unfoldable pub delete_applet :
        DeleteAppletArgs → Action (ScpSession × W) ScllError DeleteObjectParams
    delete_applet args = do
      ask (delete_object args.instance_aid false)
          ((sw_ref_not_found, ScllError.target_no_longer_exists) ∷ [])
      removed ← lift (new args.instance_aid)
      (elfs_removed, cascade_used) ← cascade_to_elf args.elf_aid (wants_elf args.cascade_elf)
      target_aid ← lift (new args.instance_aid)
      lift (ok (deleted_params args target_aid removed elfs_removed cascade_used))

    unfoldable pub create_ssd :
        CreateSsdArgs → PrivLen → Action (ScpSession × W) ScllError CreateSsdParams
    create_ssd args priv_len = do
      lift (
          reject_if (not (bit_and args.privileges.byte_1 ssd_refused_mask == 0))
            ScllError.unsupported_privilege)
      ask
          (install_for_install_make_selectable args.elf_aid args.module_aid args.ssd_aid
            args.privileges priv_len args.install_params)
          ((sw_ref_not_found, ScllError.resident_sd_not_found)
            ∷ (sw_wrong_data, ScllError.aid_already_exists)
            ∷ [])
      ssd_aid ← lift (new args.ssd_aid)
      parent_sd_aid ← lift (new args.parent_sd_aid)
      elf_aid ← lift (new args.elf_aid)
      module_aid ← lift (new args.module_aid)
      params ← lift (copy_bounded install_params_max args.install_params)
      lift (
          ok (record {
            ssd_aid_effective = ssd_aid;
            aid_was_generated = false;
            parent_sd_aid = parent_sd_aid;
            privileges_used = args.privileges;
            elf_aid_used = elf_aid;
            module_aid_used = module_aid;
            install_params_used = params;
          }))

    unfoldable pub delete_ssd :
        List ℕ → DeleteCascade → Action (ScpSession × W) ScllError DeleteObjectParams
    delete_ssd ssd_aid requested = do
      ask (delete_object ssd_aid (cascades requested)) (ssd_arms (cascades requested))
      target_aid ← lift (new ssd_aid)
      lift (
          ok (record {
            target_aid = target_aid;
            target_kind = ssd;
            cascade_requested = requested;
            cascade_used = cascades requested;
            instances_removed = [];
            elfs_removed = [];
          }))
