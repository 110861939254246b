-- ===== src/Ssh/Host/Shell/Words.antt =====
-- How a POSIX shell takes a line apart into words, written without regard to the source: blanks
-- part words, a single quote keeps everything up to the next one, a backslash keeps the next
-- character on the line. A character with another meaning to the shell (an expansion, a redirection, a
-- separator, a comment, a double quote) is refused outside quotes.
use mathlib.Core.Bool.{◌&&◌, ◌||◌}
use nomad_temporal_jobs.Prelude.{
  ℕ, ◌≡◌, refl, arith, Bool, true, false, leb, ◌==◌, List, [], ◌∷◌, ◌++◌, append-nil, append_assoc,
  Option, none, some, if◌then◌else◌,
}
use nomad_temporal_jobs.Prelude.Text.{Text, codes}
use nomad_temporal_jobs.Ssh.Host.Shell.{escape_quotes, shell_quote, du_command, line}

-- The words that are complete, and the one that is being read.
pub data Reader : Type 0 where
  between : List Text → Reader
  inside : List Text → Text → Reader
  quoted : List Text → Text → Reader
  escaped : List Text → Text → Reader
  refused : Reader

-- letters, digits, and `-`, `.`, `/`, `_`, `:`, `,`, `+`, `@`, `%`
abbrev stands_for_itself : ℕ → Bool
stands_for_itself c =
    (leb b'a' c && leb c b'z')
    || (leb b'A' c && leb c b'Z')
    || (leb b'+' c && leb c b':')
    || (c == b'_')
    || (c == b'@')
    || (c == b'%')

abbrev unquoted : List Text → Text → ℕ → Reader
unquoted words word c =
    if c == b'\''
    then quoted words word
    else if c == b'\\'
    then escaped words word
    else if stands_for_itself c
    then inside words (word ++ (c ∷ []))
    else refused

abbrev read_char : Reader → ℕ → Reader
read_char (between words) c = if c == b' ' then between words else unquoted words [] c
read_char (inside words word) c =
    if c == b' ' then between (words ++ (word ∷ [])) else unquoted words word c
read_char (quoted words word) c =
    if c == b'\'' then inside words word else quoted words (word ++ (c ∷ []))
read_char (escaped words word) c = if c == 10 then refused else inside words (word ++ (c ∷ []))
read_char refused c = refused

unfoldable pub read_line : Reader → Text → Reader
read_line r [] = r
read_line r (c ∷ s) = read_line (read_char r c) s

-- the words of a line, unless a quote is not closed or something would be expanded
abbrev complete : Reader → Option (List Text)
complete (between words) = some words
complete (inside words word) = some (words ++ (word ∷ []))
complete (quoted words word) = none
complete (escaped words word) = none
complete refused = none

unfoldable pub shell_words : Text → Option (List Text)
unfolding read_line
shell_words s = complete (read_line (between []) s)

read_line-append : (r : Reader) (s t : Text) → read_line r (s ++ t) ≡ read_line (read_line r s) t
unfolding read_line
read_line-append r [] t = refl
read_line-append r (c ∷ s) t = read_line-append (read_char r c) s t

-- Inside the quotes, the escaped text is read as the text.
read_line-escape_quotes :
    (words : List Text) (word s : Text)
    → read_line (quoted words word) (escape_quotes s) ≡ quoted words (word ++ s)
unfolding read_line escape_quotes
read_line-escape_quotes words word [] = rw (append-nil word)
read_line-escape_quotes words word (c ∷ s) =
    ground (arith, read_line-escape_quotes words (word ++ (c ∷ [])) s, append_assoc word (c ∷ []) s)

-- A quoted text is one word of the shell, the text itself, wherever a word may begin.
pub read_line-shell_quote :
    (words : List Text) (s : Text) → read_line (between words) (shell_quote s) ≡ inside words s
unfolding read_line shell_quote
read_line-shell_quote words s = ground (
  arith,
  read_line-append (quoted words []) (escape_quotes s) (b'\'' ∷ []),
  read_line-escape_quotes words [] s,
)

-- Whatever the name of the directory, the shell of the host reads the line of DirSize as these words
-- and nothing else: du, its two options and the name, behind sudo where the target asks for it.
pub shell_words-du_command :
    (sudo : Bool) (dir : Text)
    → shell_words (line sudo (du_command dir))
      ≡ some (
          (if sudo then codes "sudo" ∷ [] else [])
          ++ (codes "du" ∷ codes "-sb" ∷ codes "--" ∷ dir ∷ []))
unfolding shell_words line du_command read_line
shell_words-du_command true dir =
    rw (read_line-shell_quote (codes "sudo" ∷ codes "du" ∷ codes "-sb" ∷ codes "--" ∷ []) dir)
shell_words-du_command false dir =
    rw (read_line-shell_quote (codes "du" ∷ codes "-sb" ∷ codes "--" ∷ []) dir)
