-- ===== src/Settings.antt =====
-- src/shared/types.ts: one row of the declared-versus-effective settings table.
use wslpad.Base.{Text, Option}

pub data Scope : Type 0 where
  windows linux : Scope

pub data SettingOrigin : Type 0 where
  wslconfig wsl_conf default computed : SettingOrigin

pub data SettingProvenance : Type 0 where
  user wsl_default computed unknown : SettingProvenance

pub data SettingVerdict : Type 0 where
  applied pending_restart not_set unknown_key wrong_section unsupported unknown : SettingVerdict

pub record WslSettingInfo : Type 0 where
  pub key : Text
  pub section : Text
  pub scope : Scope
  pub declared_value : Option Text
  pub effective_value : Option Text
  pub origin : SettingOrigin
  pub provenance : SettingProvenance
  pub verdict : SettingVerdict
  pub note : Option Text
