-- ===== src/Ssh/Host/Shell.antt =====
-- The command lines that go to a host: `ShellQuote`, `line` and the command of `DirSize` of
-- shared/client/ssh/ssh.go.
pub mod Words
use nomad_temporal_jobs.Prelude.{Bool, true, false, List, [], ◌∷◌, ◌++◌, ◌==◌, if◌then◌else◌}
use nomad_temporal_jobs.Prelude.Text.{Text, codes}

-- `strings.ReplaceAll(s, "'", "'\\''")`
unfoldable pub escape_quotes : Text → Text
escape_quotes [] = []
escape_quotes (c ∷ s) =
    let rest = escape_quotes s in
    if c == b'\'' then b'\'' ∷ b'\\' ∷ b'\'' ∷ b'\'' ∷ rest else c ∷ rest

unfoldable pub shell_quote : Text → Text
unfolding escape_quotes
shell_quote s = b'\'' ∷ (escape_quotes s ++ (b'\'' ∷ []))

unfoldable pub du_command : Text → Text
unfolding shell_quote
du_command dir = codes "du -sb -- " ++ shell_quote dir

-- the command as it is run, with the prefix that the target asks for
unfoldable pub line : Bool → Text → Text
line sudo cmd = if sudo then codes "sudo " ++ cmd else cmd
