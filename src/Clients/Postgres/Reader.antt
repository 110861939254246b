-- ===== src/Clients/Postgres/Reader.antt =====
-- How a connection string is read, written without regard to the source: the keyword and value
-- format that libpq documents. Blanks may stand around the equals sign; a value ends at a blank.
-- Quoted values and escapes are refused here, as the source writes none.
use nomad_temporal_jobs.Prelude.{
  ℕ, ◌≡◌, refl, sym, ap, ◌∙◌, arith, Bool, false, ◌||◌, ◌==◌, All, List, [], ◌∷◌, ◌++◌,
  append_assoc, append-nil, Option, none, some, if◌then◌else◌,
}
use nomad_temporal_jobs.Prelude.Text.{Text, is_empty}

abbrev pub Settings : Type 0
Settings = List (Text × Text)

pub data Reader : Type 0 where
  outside : Settings → Reader
  in_key : Settings → Text → Reader
  behind_key : Settings → Text → Reader
  before_value : Settings → Text → Reader
  in_value : Settings → Text → Text → Reader
  refused : Reader

abbrev is_special : ℕ → Bool
is_special c = (c == b'\'') || (c == b'\\')

abbrev pub read_char : Reader → ℕ → Reader
read_char (outside done) c =
    if c == b' ' then outside done else if c == b'=' then refused else in_key done (c ∷ [])
read_char (in_key done k) c =
    if c == b' '
    then behind_key done k
    else if c == b'='
    then before_value done k
    else in_key done (k ++ (c ∷ []))
read_char (behind_key done k) c =
    if c == b' ' then behind_key done k else if c == b'=' then before_value done k else refused
read_char (before_value done k) c =
    if c == b' '
    then before_value done k
    else if is_special c
    then refused
    else in_value done k (c ∷ [])
read_char (in_value done k v) c =
    if c == b' '
    then outside (done ++ ((k, v) ∷ []))
    else if is_special c
    then refused
    else in_value done k (v ++ (c ∷ []))
read_char refused c = refused

unfoldable pub read_text : Reader → Text → Reader
read_text r [] = r
read_text r (c ∷ s) = read_text (read_char r c) s

abbrev pub settings_of : Reader → Option Settings
settings_of (outside done) = some done
settings_of (in_key done k) = none
settings_of (behind_key done k) = none
settings_of (before_value done k) = some (done ++ ((k, []) ∷ []))
settings_of (in_value done k v) = some (done ++ ((k, v) ∷ []))
settings_of refused = none

unfoldable pub read_settings : Text → Option Settings
unfolding read_text
read_settings s = settings_of (read_text (outside []) s)

-- no blank, quote or backslash
abbrev pub IsPlain : Text → Type 0
IsPlain = All (λ c. ((c == b' ') || is_special c) ≡ false)

pub read_text-append :
    (r : Reader) (s t : Text) → read_text r (s ++ t) ≡ read_text (read_text r s) t
unfolding read_text
read_text-append r [] t = refl
read_text-append r (c ∷ s) t = read_text-append (read_char r c) s t

pub read_text-in_value :
    (done : Settings) (k v w : Text)
    → IsPlain w
    → read_text (in_value done k v) w ≡ in_value done k (v ++ w)
unfolding read_text
read_text-in_value done k v [] h = ap (in_value done k) (sym (append-nil v))
read_text-in_value done k v (c ∷ w) h =
    ground (arith, h.0, read_text-in_value done k (v ++ (c ∷ [])) w h.1, append_assoc v (c ∷ []) w)

-- A value that is not empty and plain is read as it is.
pub read_text-before_value :
    (done : Settings) (k w : Text)
    → is_empty w ≡ false
    → IsPlain w
    → read_text (before_value done k) w ≡ in_value done k w
unfolding read_text is_empty
read_text-before_value done k [] e h = ground (arith, e)
read_text-before_value done k (c ∷ w) e h =
    ground (arith, h.0, read_text-in_value done k (c ∷ []) w h.1)

-- One more setting: the separator ends the value before it and gives the next key.
pub next_setting :
    (r : Reader) (s separator : Text) (done : Settings) (k v key w : Text)
    → read_text r s ≡ in_value done k v
    → read_text (in_value done k v) separator ≡ before_value (done ++ ((k, v) ∷ [])) key
    → is_empty w ≡ false
    → IsPlain w
    → read_text r (s ++ separator ++ w) ≡ in_value (done ++ ((k, v) ∷ [])) key w
next_setting r s separator done k v key w before ends e h =
    read_text-append r (s ++ separator) w
    ∙ ap (λ q. read_text q w)
        (read_text-append r s separator ∙ ap (λ q. read_text q separator) before ∙ ends)
    ∙ read_text-before_value (done ++ ((k, v) ∷ [])) key w e h
