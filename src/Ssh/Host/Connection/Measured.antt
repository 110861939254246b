-- ===== src/Ssh/Host/Connection/Measured.antt =====
-- DirSize end to end: the command line through the shell of the host, the line of `du` back.
use nomad_temporal_jobs.Prelude.{
  ◌^◌, ◌≡◌, refl, ℕ, pos, Bool, true, false, ltb, List, [], ◌∷◌, Option, none, some, if◌then◌else◌,
  ◌&&◌,
}
use nomad_temporal_jobs.Prelude.Result.{Result, Failure, ok, err}
use nomad_temporal_jobs.Prelude.Text.{Text, codes, text_eq, Lacks}
use nomad_temporal_jobs.Ssh.Host.Shell.{line, du_command}
use nomad_temporal_jobs.Ssh.Host.Shell.Words.{shell_words, shell_words-du_command}
use nomad_temporal_jobs.Ssh.Host.Du.Total.{numeral_value, IsNumeral, du_line, du_total-du_line}
use nomad_temporal_jobs.Ssh.Host.Connection.{
  HostCall, open_session, Host, SshConn, dir_size, run, command_result, run_in_session, opened,
  asked,
}

-- A host whose shell takes the line apart into words and whose `du` prints, for a directory, a
-- numeral, a tab and the name that it was given.
module _ (size_of : Text → Text) where
  abbrev run_du : List Text → Text
  run_du (cmd ∷ summary ∷ dashes ∷ dir ∷ []) =
      if text_eq cmd (codes "du") && (text_eq summary (codes "-sb") && text_eq dashes (codes "--"))
      then du_line (size_of dir) dir
      else []
  run_du words = []

  abbrev run_program : List Text → Text
  run_program [] = []
  run_program (cmd ∷ args) = if text_eq cmd (codes "sudo") then run_du args else run_du (cmd ∷ args)

  abbrev pub shell_output : Option (List Text) → Text
  shell_output none = []
  shell_output (some words) = run_program words

  abbrev pub RunsDu : Host → Type 0
  RunsDu h =
      (log : List HostCall) (cmd : Text)
      → (h.run_line log cmd).stdout ≡ shell_output (shell_words cmd)

  shell_output-du_command :
      (sudo : Bool) (dir : Text)
      → shell_output (shell_words (line sudo (du_command dir))) ≡ du_line (size_of dir) dir
  unfolding text_eq
  shell_output-du_command true dir = rw (shell_words-du_command true dir)
  shell_output-du_command false dir = rw (shell_words-du_command false dir)

  command_result-text :
      (out : Text) (r : Result (Unit {0})) (ctx : Option Failure)
      → (command_result out r ctx).0 ≡ out
  unfolding command_result
  command_result-text out (ok u) ctx = refl
  command_result-text out (err e) ctx = refl

  run_output :
      (h : Host) (sudo : Bool) (cmd : Text) (s : SshConn)
      → ((log : List HostCall) → h.new_session log ≡ ok tt)
      → (run h sudo cmd s).0.0 ≡ (h.run_line (asked open_session s).calls (line sudo cmd)).stdout
  unfolding run run_in_session opened
  run_output h sudo cmd s session = rw (session s.calls) (command_result-text _ _ _)

  -- On a host that runs the lines it is given as a shell does, and that answers, a directory whose
  -- name has no line break is measured as its own size, where `du` prints a numeral below 2^63 for
  -- it, however the command exits.
  pub dir_size-host :
      (h : Host) (sudo : Bool) (s : SshConn) (dir : Text) (c : ℕ) (numeral : Text)
      → RunsDu h
      → ((log : List HostCall) → h.new_session log ≡ ok tt)
      → ((log : List HostCall) → h.ctx_err log ≡ none)
      → size_of dir ≡ c ∷ numeral
      → IsNumeral (c ∷ numeral)
      → Lacks 10 dir
      → ltb (numeral_value (c ∷ numeral)) (2 ^ 63) ≡ true
      → (dir_size h sudo dir s).0 ≡ ok (pos (numeral_value (c ∷ numeral)))
  unfolding dir_size
  dir_size-host h sudo s dir c numeral runs session ctx size is_numeral no_break small = rw (
    run_output h sudo (du_command dir) s session,
    runs (asked open_session s).calls (line sudo (du_command dir)),
    shell_output-du_command sudo dir,
    size,
    ctx (run h sudo (du_command dir) s).1.calls,
    du_total-du_line c numeral dir (run h sudo (du_command dir) s).0.1 is_numeral no_break,
    small,
  )
