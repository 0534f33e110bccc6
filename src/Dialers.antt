-- ===== src/Dialers.antt =====
-- socket/dialers: what each dialer is made of, and what it does up to the connection.
use go_libvirt.Base.{ℕ, Bool, Option, List, Result}
use go_libvirt.Base.Text.{Bytes}
pub mod Plain
pub mod Tls
pub mod Ssh

-- `errors.Is(err, fs.ErrNotExist)`, and any other error of the file system.
pub data FileError : Type 0 where
  not_exist failed : FileError

pub record User : Type 0 where
  pub uid : Bytes
  pub user_name : Bytes
  pub home_dir : Bytes

-- What the operating system tells the dialers: `user.Current`, `os.UserHomeDir`, `os.UserConfigDir`,
-- whether `runtime.GOOS` is "windows", `filepath.Join`, `os.Stat` without an error, and `os.ReadFile`.
pub record System : Type 0 where
  pub current_user : Option User
  pub user_home_dir : Option Bytes
  pub user_config_dir : Option Bytes
  pub is_windows : Bool
  pub join : List Bytes → Bytes
  pub is_there : Bytes → Bool
  pub read_file : Bytes → Result FileError Bytes
