-- ===== src/Examples/Hosts.antt =====
-- The SSH client at concrete inputs.
use nomad_temporal_jobs.Prelude.{
  ◌≡◌, ◌≢◌, refl, pos, arith, true, false, none, some, List, [], ◌∷◌, ◌++◌, All,
}
use nomad_temporal_jobs.Prelude.Result.{Result, external, ok, err}
use nomad_temporal_jobs.Prelude.Text.{Text, codes, is_empty, text_eq, Lacks}
use nomad_temporal_jobs.Heartbeat.{finished, tick}
use nomad_temporal_jobs.Ssh.Host.Shell.{line, du_command}
use nomad_temporal_jobs.Ssh.Host.Shell.Words.{shell_words, shell_words-du_command}
use nomad_temporal_jobs.Ssh.Host.Du.{is_digit}
use nomad_temporal_jobs.Ssh.Host.Du.Total.{IsNumeral}
use nomad_temporal_jobs.Ssh.Host.Credentials.{
  SshConfig, SshTarget, SshLibrary, SshClient, Dial, new_ssh_client, dial_request,
}
use nomad_temporal_jobs.Ssh.Host.Credentials.Offered.{IsOffer, dial_request-IsOffer}
use nomad_temporal_jobs.Ssh.Host.Connection.{Host, dir_size, close, dialled}
use nomad_temporal_jobs.Ssh.Host.Connection.Measured.{shell_output, dir_size-host}
use nomad_temporal_jobs.Ssh.Host.Connection.Closed.{
  HostOp, op_size, op_read, op_remove, after_ops, IsClosed, close-after_ops-IsClosed,
}
use nomad_temporal_jobs.Ssh.Container.{
  DaemonCall, connect_host, new_client, create_container, start_container, force_remove,
  close_client, close_host, Daemon, run_container,
}
use nomad_temporal_jobs.Ssh.Container.Removed.{is_removal, run_container-removed}

shell_words-du_command_example :
    shell_words (line true (du_command (codes "/srv/it's; rm -rf $HOME")))
    ≡ some (
        codes "sudo" ∷ codes "du" ∷ codes "-sb" ∷ codes "--" ∷ codes "/srv/it's; rm -rf $HOME" ∷ [])
shell_words-du_command_example = shell_words-du_command true (codes "/srv/it's; rm -rf $HOME")

abbrev size_of : Text → Text
size_of dir = codes "4096"

-- A host that runs du, whose command exits with an error all the same.
abbrev host : Host
host = record {
  new_session = λ log. ok tt;
  run_line = λ log cmd. record {
    stdout = shell_output size_of (shell_words cmd);
    stderr = codes "du: cannot read directory";
    status = err (external "exit status 1");
  };
  start_line = λ log cmd. ok tt;
  wait_line = λ log cmd. tick (finished (ok tt));
  output_of = λ log cmd. [];
  ctx_err = λ log. none;
  new_sftp = λ log. ok tt;
  read_dir = λ log dir. ok (codes "a" ∷ []);
  remove_all = λ log path. err (external "denied");
}

size-IsNumeral : IsNumeral (codes "4096")
unfolding is_digit
size-IsNumeral = (refl, (refl, (refl, (refl, tt))))

data-Lacks : Lacks 10 (codes "/d")
data-Lacks = ground arith

dir_size-host_example : (dir_size host true (codes "/d") dialled).0 ≡ ok (pos 4096)
dir_size-host_example =
    dir_size-host size_of host true dialled (codes "/d") b'4' (codes "096") (λ log cmd. refl)
      (λ log. refl) (λ log. refl) refl size-IsNumeral data-Lacks refl

abbrev ops : List HostOp
ops = op_read (codes "/d") ∷ op_size (codes "/d") ∷ op_remove (codes "/d/a") ∷ []

close-after_ops-IsClosed_example : IsClosed (close (after_ops host true ops dialled)).calls
close-after_ops-IsClosed_example = close-after_ops-IsClosed host true ops

-- A library whose keys are texts, and files that are signed anew between the start and now.
abbrev lib : SshLibrary Text Text Text
lib = record {
  parse_private_key = λ file. ok file;
  parse_authorized_key = λ file. ok file;
  certificate = λ key. some key;
  new_cert_signer = λ cert key. ok (cert ++ key);
  marshal = λ key. key;
}

abbrev start : Text → Result Text
start path = ok path

abbrev now : Text → Result Text
now path = ok (path ++ codes "2")

abbrev config : SshConfig
config = record {
  key_path = codes "k";
  cert_path = codes "c";
  host_ca_path = codes "h";
  timeout = 0;
}

abbrev node : SshTarget
node = record { host = codes "n"; user = codes "root"; port = 0; sudo = false }

abbrev client : SshClient Text
client = record { cfg = config; is_host_authority = λ auth. text_eq auth (codes "h"); timeout = 30 }

abbrev dialled_now : Dial Text Text
dialled_now = record {
  host = codes "n";
  port = 22;
  user = codes "root";
  auth = codes "c2k2" ∷ codes "k2" ∷ [];
  is_host_authority = λ auth. text_eq auth (codes "h");
  timeout = 30;
}

client_made : new_ssh_client lib start config ≡ ok client
unfolding new_ssh_client is_empty
client_made = refl

request_made : dial_request lib now client node ≡ ok dialled_now
unfolding dial_request is_empty
request_made = refl

dial_request-IsOffer_example :
    IsOffer lib now config dialled_now.auth × (dialled_now.port ≢ 0) × (dialled_now.timeout ≢ 0)
dial_request-IsOffer_example =
    dial_request-IsOffer lib start now config client node dialled_now client_made request_made

-- A daemon on which the container cannot be started.
abbrev daemon : Daemon
daemon = record {
  connect = λ calls. ok tt;
  client = λ calls. ok tt;
  create = λ calls. ok (codes "c1");
  start = λ calls id. err (external "no space");
  wait = λ calls id. finished (ok (pos 0));
  logs = λ calls id. ok ([], none);
}

run_container-removed_example :
    (mid : List DaemonCall) × ((run_container daemon).1
      ≡ (connect_host ∷ new_client ∷ create_container ∷ start_container (codes "c1") ∷ [])
        ++ (mid ++ (force_remove (codes "c1") ∷ close_client ∷ close_host ∷ [])))
    × All (λ c. is_removal c ≡ false) mid
run_container-removed_example = run_container-removed daemon (codes "c1") refl refl refl
