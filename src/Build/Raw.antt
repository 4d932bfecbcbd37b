-- ===== src/Build/Raw.antt =====
-- What libssh2-sys/build.rs uses of the system and of the crates `cc`, `pkg_config` and `vcpkg`, over
-- a state `S` of the machine. Paths are their bytes.
use ssh2_rs.Base.{Bool, Option, List}
use ssh2_rs.Base.Text.{Bytes}

-- The calls on a `cc::Build`, in order.
pub data Setting : Type 0 where
  out_dir file include define flag : Bytes → Setting
  warnings : Bool → Setting

-- The calls on a `vcpkg::Config`, in order.
pub data VcpkgSetting : Type 0 where
  emit_includes : Bool → VcpkgSetting
  lib_name : Bytes → VcpkgSetting
  lib_names : Bytes → Bytes → VcpkgSetting

-- A call that gives `false` has failed; `compile` then ends the script.
pub record System (S : Type 0) : Type 0 where
  pub var_os : Bytes → Option Bytes
  pub join : Bytes → Bytes → Bytes
  pub display : Bytes → Bytes
  pub first_path : Bytes → Option Bytes
  pub print : Bytes → S → S
  pub find_library : Bytes → S → Option (List Bytes) × S
  pub probe : List VcpkgSetting → Bytes → S → Bool × S
  pub exists : Bytes → S → Bool
  pub update_submodules : S → S
  pub create_dir_all : Bytes → S → Bool × S
  pub copy : Bytes → Bytes → S → Bool × S
  pub read_to_string : Bytes → S → Option Bytes × S
  pub write : Bytes → Bytes → S → Bool × S
  pub compile : List Setting → Bytes → S → Bool × S
