-- ===== src/Proxy/Script.antt =====
-- old/cmd/wsl2-ssh-agent-proxy/main.go: the path of PowerShell, the byte order, and the debug lines
-- of its script.
use omni_sshagent.Base.{◌-◌, Bool, ◌&&◌, List, [], ◌∷◌, leb, length, drop, map, if◌then◌else◌}
use omni_sshagent.Base.Text.{Text, codes, equal, has_prefix, is_empty, trim_space}
use omni_sshagent.Base.Words.{split, join}

-- `strings.HasSuffix s p`
unfoldable pub has_suffix : Text → Text → Bool
has_suffix s p = leb (length p) (length s) && equal (drop (length s - length p) s) p

abbrev pub is_system32 : Text → Bool
is_system32 p = has_prefix p (codes "/mnt/") && has_suffix p (codes "/Windows/system32")

first_system32 : List Text → Text
unfolding has_suffix
first_system32 [] = []
first_system32 (p ∷ paths) = if is_system32 p then p else first_system32 paths

-- `getSystem32Path` of the variable PATH.
unfoldable pub get_system32_path : Text → Text
unfolding first_system32
get_system32_path path = first_system32 (split b':' path)

-- The start of `main`: the path that is run, where `exists` is what `os.Stat` finds of a path.
unfoldable pub exe_path : (Text → Text → Text) → (Text → Bool) → Text → Text
unfolding get_system32_path
exe_path join_path exists path =
    let dir = get_system32_path path in
    let exe =
      if is_empty dir then [] else join_path dir (codes "WindowsPowerShell/v1.0/powershell.exe") in
    if exists exe then exe else codes "powershell.exe"

-- `strings.Replace line "# " "" 1`
unfoldable pub remove_mark : Text → Text
remove_mark [] = []
remove_mark (c ∷ line) =
    let rest = remove_mark line in
    if has_prefix (c ∷ line) (codes "# ") then drop 1 line else c ∷ rest

unfoldable pub uncomment_line : Text → Text
unfolding remove_mark
uncomment_line line =
    if has_prefix (trim_space line) (codes "# [Console]::Error.WriteLine(")
    then remove_mark line
    else line

-- `uncommentWriteLines`
unfoldable pub uncomment_write_lines : Text → Text
unfolding uncomment_line
uncomment_write_lines script = join 10 (map uncomment_line (split 10 script))
