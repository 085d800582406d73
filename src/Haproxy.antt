-- ===== src/Haproxy.antt =====
-- haproxy/haproxy.go: the loop that writes a configuration and restarts haproxy, over the operating system.
pub mod Template
pub mod Adaptor
pub mod Sections
pub mod Apply
use kube_bazellb.Prelude.{
  ℕ, nat_beq, Bool, true, false, Option, none, some, List, [], ◌∷◌, ◌++◌, Str, codes, str_eq,
  if◌then◌else◌,
}
use kube_bazellb.Text.{split}
use kube_bazellb.Text.Fields.{non_empty}

-- What the program calls: the answers say whether there was no error. `read_file` answers with the
-- content, with nothing for a file that is not there, or with an error.
pub data FileContent : Type 0 where
  content : Str → FileContent
  not_exist unreadable : FileContent

pub record System (S : Type 0) : Type 0 where
  pub mkdir_all : Str → S → S × Bool
  pub write_file : Str → Str → S → S × Bool
  pub rename : Str → Str → S → S × Bool
  pub read_file : Str → S → FileContent
  pub combined_output : List Str → S → S × Bool
  pub start : List Str → S → S × Bool
  pub wait : S → S × Bool

pub record Haproxy : Type 0 where
  pub conf_file : Str
  pub pid_file : Str
  pub cmd_path : Str
  pub last_conf : Str

unfoldable pub new_haproxy : Haproxy
new_haproxy = record {
  conf_file = codes "/etc/haproxy/haproxy.cfg";
  pid_file = codes "/var/run/haproxy.pid";
  cmd_path = codes "/usr/local/sbin/haproxy";
  last_conf = [];
}

abbrev before_last : ℕ → Str → Option Str
before_last sep [] = none
before_last sep (c ∷ s) = elim (before_last sep s) [
  | some d ↦ some (c ∷ d)
  | none ↦ if nat_beq c sep then some [] else none
]

-- `filepath.Dir` of a path that is clean.
unfoldable pub dir : Str → Str
dir path = elim (before_last b'/' path) [
  | none ↦ codes "."
  | some [] ↦ codes "/"
  | some (c ∷ d) ↦ c ∷ d
]

-- A line that is no number is logged, and kept.
abbrev pids_of : FileContent → List Str
pids_of (content conf) = non_empty (split 10 conf)
pids_of not_exist = []
pids_of unreadable = []

module _ {S : Type 0} (sys : System S) where
  -- The next call, unless the last one failed.
  abbrev pub and_then : S × Bool → (S → S × Bool) → S × Bool
  and_then (s, true) f = f s
  and_then (s, false) f = (s, false)

  unfoldable pub check_configs : Haproxy → Str → S → S × Bool
  check_configs h file = sys.combined_output (h.cmd_path ∷ codes "-f" ∷ file ∷ codes "-c" ∷ [])

  -- The steps of `buildConf` on the system, up to the first that fails.
  unfoldable pub write_conf : Haproxy → Str → S → S × Bool
  unfolding check_configs dir
  write_conf h conf s =
      let tmp_file = h.conf_file ++ codes ".tmp" in
      and_then
        (and_then (and_then (sys.mkdir_all (dir h.conf_file) s) (sys.write_file tmp_file conf))
          (check_configs h tmp_file))
        (sys.rename tmp_file h.conf_file)

  unfoldable pub build_conf : Str → Haproxy × S → (Haproxy × S) × Bool
  unfolding write_conf
  build_conf conf (h, s) =
      let (s', done) = write_conf h conf s in ((record h { last_conf = conf }, s'), done)

  unfoldable pub read_pids : Haproxy → S → List Str
  unfolding split
  read_pids h s = pids_of (sys.read_file h.pid_file s)

  unfoldable pub restart : Haproxy → S → S × Bool
  unfolding read_pids
  restart h s =
      and_then
        (sys.start
          (h.cmd_path
            ∷ codes "-f"
            ∷ h.conf_file
            ∷ codes "-D"
            ∷ codes "-p"
            ∷ h.pid_file
            ∷ codes "-sf"
            ∷ read_pids h s)
          s)
        sys.wait

  -- One round of `Run`, at a configuration from the channel.
  unfoldable pub run_conf : Str → Haproxy × S → Haproxy × S
  unfolding build_conf restart
  run_conf conf (h, s) =
      if str_eq h.last_conf conf
      then (h, s)
      else let ((h', s'), done) = build_conf conf (h, s) in
        (h', if done then (restart h' s').0 else s')

  -- The configurations that come on the channel.
  unfoldable pub run_confs : List Str → Haproxy × S → Haproxy × S
  unfolding run_conf
  run_confs [] hs = hs
  run_confs (conf ∷ confs) hs = run_confs confs (run_conf conf hs)
