-- ===== src/Permissions/Sys.antt =====
-- `SysInfo` and `sys_info_from_str`.
use ferrijs.Prelude.{
  ◌≡◌, List, [], ◌∷◌, ◌++◌, refl, PartialEq, ◌==◌, list_eq, nat_eq, find, discrete_eq,
}
use ferrijs.Prelude.Result.{Result, ok, ok_or}
use ferrijs.Text.{Text, text}

pub data SysInfo : Type 0 where
  hostname os_release os_uptime load_avg network_interfaces system_memory : SysInfo
  uid gid username cpus home_dir priority : SysInfo

pub SysInfo-discrete : Discrete SysInfo
SysInfo-discrete = hlevel

instance abbrev pub sys_info_eq : PartialEq SysInfo
sys_info_eq = discrete_eq SysInfo-discrete

-- `SysInfo::as_str`
unfoldable pub as_str : SysInfo → Text
as_str hostname = text "hostname"
as_str os_release = text "osRelease"
as_str os_uptime = text "osUptime"
as_str load_avg = text "loadavg"
as_str network_interfaces = text "networkInterfaces"
as_str system_memory = text "systemMemoryInfo"
as_str uid = text "uid"
as_str gid = text "gid"
as_str username = text "username"
as_str cpus = text "cpus"
as_str home_dir = text "homedir"
as_str priority = text "priority"

abbrev pub sys_infos : List SysInfo
sys_infos =
    hostname ∷ os_release ∷ os_uptime ∷ load_avg ∷ network_interfaces ∷ system_memory ∷ uid ∷ gid
    ∷ username ∷ cpus ∷ home_dir ∷ priority ∷ []

unfoldable pub sys_info_from_str : Text → Result Text SysInfo
unfolding as_str
sys_info_from_str name =
    ok_or (find (λ item. as_str item == name) sys_infos)
      (text "`" ++ (name ++ text "` is not a sys permission"))

-- Every item is parsed back from its name.
pub sys_info_from_str-as_str : (i : SysInfo) → sys_info_from_str (as_str i) ≡ ok i
unfolding sys_info_from_str
sys_info_from_str-as_str hostname = refl
sys_info_from_str-as_str _ = refl
