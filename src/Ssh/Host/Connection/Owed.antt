-- ===== src/Ssh/Host/Connection/Owed.antt =====
-- The calls of a connection, counted.
use nomad_temporal_jobs.Prelude.{
  ℕ, suc, ◌+◌, ◌≡◌, refl, arith, Bool, true, false, [], ◌∷◌, count, count-append,
}
use nomad_temporal_jobs.Prelude.Text.{Text}
use nomad_temporal_jobs.Ssh.Host.Connection.{
  HostCall, open_session, close_session, open_sftp, close_sftp, close_connection, exec, list_dir,
  remove_tree, SshConn, asked,
}

abbrev pub is_open_session : HostCall → Bool
is_open_session open_session = true
is_open_session _ = false

abbrev pub is_close_session : HostCall → Bool
is_close_session close_session = true
is_close_session _ = false

abbrev pub is_open_sftp : HostCall → Bool
is_open_sftp open_sftp = true
is_open_sftp _ = false

abbrev pub is_close_sftp : HostCall → Bool
is_close_sftp close_sftp = true
is_close_sftp _ = false

abbrev pub is_close_connection : HostCall → Bool
is_close_connection close_connection = true
is_close_connection _ = false

abbrev pub flag : Bool → ℕ
flag true = 1
flag false = 0

-- That many sessions of commands are open, the SFTP session is open once if it is there, and nothing
-- else was closed.
abbrev pub IsOwed : ℕ → SshConn → Type 0
IsOwed n s =
    (count is_open_session s.calls ≡ n + count is_close_session s.calls)
    × (count is_open_sftp s.calls ≡ flag s.sftp)
    × (count is_close_sftp s.calls ≡ 0)
    × (count is_close_connection s.calls ≡ 0)

count-asked :
    (p : HostCall → Bool) (c : HostCall) (s : SshConn)
    → count p (asked c s).calls ≡ count p s.calls + flag (p c)
unfolding asked
count-asked p c s = ground (arith, count-append p s.calls (c ∷ []))

-- the four counts behind one more call
abbrev pub Counted : HostCall → SshConn → Type 0
Counted c s =
    (count is_open_session (asked c s).calls
      ≡ count is_open_session s.calls + flag (is_open_session c))
    × (count is_close_session (asked c s).calls
        ≡ count is_close_session s.calls + flag (is_close_session c))
    × (count is_open_sftp (asked c s).calls ≡ count is_open_sftp s.calls + flag (is_open_sftp c))
    × (count is_close_sftp (asked c s).calls ≡ count is_close_sftp s.calls + flag (is_close_sftp c))
    × (count is_close_connection (asked c s).calls
        ≡ count is_close_connection s.calls + flag (is_close_connection c))

pub asked-Counted : (c : HostCall) (s : SshConn) → Counted c s
asked-Counted c s = (
  count-asked is_open_session c s,
  count-asked is_close_session c s,
  count-asked is_open_sftp c s,
  count-asked is_close_sftp c s,
  count-asked is_close_connection c s,
)

asked_sftp : (c : HostCall) (s : SshConn) → (asked c s).sftp ≡ s.sftp
unfolding asked
asked_sftp c s = refl

pub open-IsOwed : (n : ℕ) (s : SshConn) → IsOwed n s → IsOwed (suc n) (asked open_session s)
open-IsOwed n s k = ground (arith, k, asked-Counted open_session s, asked_sftp open_session s)

pub close-IsOwed : (n : ℕ) (s : SshConn) → IsOwed (suc n) s → IsOwed n (asked close_session s)
close-IsOwed n s k = ground (arith, k, asked-Counted close_session s, asked_sftp close_session s)

pub exec-IsOwed : (n : ℕ) (cmd : Text) (s : SshConn) → IsOwed n s → IsOwed n (asked (exec cmd) s)
exec-IsOwed n cmd s k = ground (arith, k, asked-Counted (exec cmd) s, asked_sftp (exec cmd) s)

pub list-IsOwed :
    (n : ℕ) (dir : Text) (s : SshConn) → IsOwed n s → IsOwed n (asked (list_dir dir) s)
list-IsOwed n dir s k =
    ground (arith, k, asked-Counted (list_dir dir) s, asked_sftp (list_dir dir) s)

pub remove-IsOwed :
    (n : ℕ) (path : Text) (s : SshConn) → IsOwed n s → IsOwed n (asked (remove_tree path) s)
remove-IsOwed n path s k =
    ground (arith, k, asked-Counted (remove_tree path) s, asked_sftp (remove_tree path) s)
